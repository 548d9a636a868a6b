-- ===== src/Listing/Routes/Stranger.antt =====
-- Requests to services/listing/routes.py about a vehicle of another host.
use car_flow_mvp.Base.{ℕ, ◌≡◌, refl, sym, ◌∙◌, Bool, true, false, Option, none, some, String, ◌==◌}
use car_flow_mvp.Base.Result.{ok}
use car_flow_mvp.Base.Table.{find, find-append_one}
use car_flow_mvp.Shared.Http.{server_error}
use car_flow_mvp.Shared.Auth.{Claims, admin, same_role}
use car_flow_mvp.Shared.Idempotency.{IdempotencyRow, IdempotencyGuard, select_key, store}
use car_flow_mvp.Shared.Endpoint.{serve}
use car_flow_mvp.Shared.Endpoint.Kept.{serve-Holds}
use car_flow_mvp.Shared.Endpoint.Repeated.{built-ok}
use car_flow_mvp.Listing.{
  Vehicle, ListingDb, ListingError, key_table, vehicle_key, create_vehicle, update_vehicle,
  add_availability_block,
}
use car_flow_mvp.Listing.Schemas.{ListingBody}
use car_flow_mvp.Listing.Routes.{owner_failure, block_failure, of_vehicle, of_block}
use car_flow_mvp.Listing.Routes.Owner.{IsLeft, ends, updating-IsLeft, blocking-IsLeft}
use car_flow_mvp.Listing.Routes.Repetition.{
  Request, creating, updating, approving, rejecting, blocking, target,
}

module _ {C : Type 0} where
  stored-IsLeft :
      (vehicle : Vehicle C) (db s : ListingDb C) (guard : IdempotencyGuard (ListingBody C))
      (b : ListingBody C) (status_code now : ℕ) (o : Option (IdempotencyRow (ListingBody C)))
      → select_key guard.consumer_id guard.key s.keys ≡ o
      → IsLeft vehicle db s
      → IsLeft vehicle db (store (key_table C) guard b status_code now s).1
  unfolding store
  stored-IsLeft vehicle db s guard b status_code now none absent left =
      rw (store, absent) (record { stored = left.stored; blocked = left.blocked })
  stored-IsLeft vehicle db s guard b status_code now (some other) found left =
      rw (store, found) left

  module _ (is_latitude is_longitude : C → Bool) where
    build-IsLeft :
        (q : Request C) (claims : Claims) (vehicle : Vehicle C) (db db' : ListingDb C)
        (body : ListingBody C)
        → find vehicle_key vehicle.id db.vehicles ≡ some vehicle
        → (vehicle.host_id == claims.sub) ≡ false
        → same_role claims.role admin ≡ false
        → same_role claims.role (target is_latitude is_longitude q).allowed_role ≡ true
        → (target is_latitude is_longitude q).build claims db ≡ (ok body, db')
        → IsLeft vehicle db db'
    unfolding create_vehicle
    build-IsLeft (creating v p) claims vehicle db db' body stored other plain role h =
        let (made, done) =
          built-ok (λ (e : ListingError). server_error)
            (create_vehicle v claims.sub p.make p.model p.year p.daily_price_cents
              p.daily_mileage_limit p.booking_mode p.latitude p.longitude)
            of_vehicle db db' body h in
        ends done refl (record {
          stored = find-append_one vehicle_key vehicle.id _ db.vehicles ∙ rw stored refl;
          blocked = refl;
        })
    build-IsLeft (updating e v p) claims vehicle db db' body stored other plain role h =
        let (made, done) =
          built-ok owner_failure (update_vehicle e v claims.sub p) of_vehicle db db' body h in
        updating-IsLeft vehicle claims.sub db db' stored other e v p made done
    build-IsLeft (approving e v) claims vehicle db db' body stored other plain role h =
        cc (sym role ∙ plain)
    build-IsLeft (rejecting v) claims vehicle db db' body stored other plain role h =
        cc (sym role ∙ plain)
    build-IsLeft (blocking b v a z) claims vehicle db db' body stored other plain role h =
        let (made, done) =
          built-ok block_failure (add_availability_block b v claims.sub a z) of_block db db' body
            h in
        blocking-IsLeft vehicle claims.sub db db' stored other b v a z made done

    module _ {H : Type 0} (hash_request_body : H → String) where
      -- A stored vehicle and its blocked days stay what they are through any request to the listing service,
      -- answered or refused, new or repeated, of a caller who is neither its host nor an administrator.
      pub stranger_changes_nothing :
          (q : Request C) (claims : Claims) (key : Option String) (c : String) (body : H) (now : ℕ)
          (vehicle : Vehicle C) (db : ListingDb C)
          → find vehicle_key vehicle.id db.vehicles ≡ some vehicle
          → (vehicle.host_id == claims.sub) ≡ false
          → same_role claims.role admin ≡ false
          → IsLeft vehicle db
              (serve
                (key_table C)
                hash_request_body
                (target is_latitude is_longitude q)
                claims
                key
                c
                body
                now
                db).1
      stranger_changes_nothing q claims key c body now vehicle db stored other plain =
          serve-Holds (key_table C) (IsLeft vehicle db)
            (λ guard b status_code now s. stored-IsLeft vehicle db s guard b status_code now _ refl)
            hash_request_body (target is_latitude is_longitude q) claims key c body now db
            (λ b s1. build-IsLeft q claims vehicle db s1 b stored other plain)
            (record { stored = stored; blocked = refl })
