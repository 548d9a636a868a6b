-- ===== src/Listing/Machine/Requests.antt =====
-- Each request to a listing endpoint that is answered makes one of the changes.
use car_flow_mvp.Base.{
  ℕ, ◌≡◌, refl, sym, ap, subst, ◌∙◌, Bool, true, false, some, List, [], ◌∷◌, ◌++◌, ◌==◌, inl, inr,
  Bool-cases, Option-cases, arith,
}
use car_flow_mvp.Base.Result.{Result, ok, err}
use car_flow_mvp.Base.Exec.{continue}
use car_flow_mvp.Base.Table.{find, find-key}
use car_flow_mvp.Shared.Http.{server_error}
use car_flow_mvp.Shared.Auth.{Claims}
use car_flow_mvp.Shared.Outbox.{OutboxRow}
use car_flow_mvp.Shared.Outbox.Ids.{ids_onto}
use car_flow_mvp.Shared.Consumer.{contains}
use car_flow_mvp.Shared.Endpoint.Repeated.{built-ok}
use car_flow_mvp.Booking.ListingClient.{pending, approved, declined}
use car_flow_mvp.Base.Table.{replace}
use car_flow_mvp.Listing.{
  Vehicle, VehicleMessage, AvailabilityBlock, vehicle_not_found, not_vehicle_owner,
  invalid_approval_transition, vehicle_updated, vehicle_approved, ListingDb, ListingError,
  same_approval, updated, vehicle_key, get_by_id, save, get_owned_vehicle, create_vehicle,
  update_vehicle, approve_vehicle, reject_vehicle, insert_block, add_availability_block,
}
use car_flow_mvp.Listing.Schemas.{ListingBody, VehicleFields}
use car_flow_mvp.Listing.Routes.{
  owner_failure, decision_failure, block_failure, of_vehicle, of_block,
}
use car_flow_mvp.Listing.Routes.Repetition.{
  Request, creating, updating, approving, rejecting, blocking, target,
}
use car_flow_mvp.Listing.Machine.{is_fresh, Change, added, told_of, rejected, kept}

module _ {C : Type 0} where
  at_key :
      (k : ℕ) (v : Vehicle C) (vs : List (Vehicle C))
      → find vehicle_key k vs ≡ some v
      → find vehicle_key v.id vs ≡ some v
  at_key k v vs found =
      subst (λ j. find vehicle_key j vs ≡ some v) (sym (find-key vehicle_key k v vs found)) found

  -- The state after a run, by what the run is known to be.
  ends :
      {A : Type 0} {out out' : Result ListingError A × ListingDb C} {a : A} {db db' : ListingDb C}
      → out ≡ (ok a, db')
      → out ≡ out'
      → Change db out'.1
      → Change db db'
  ends {A} {out} {out'} {a} {db} {db'} h step c =
      subst (Change db) (ap (λ (o : Result ListingError A × ListingDb C). o.1) (sym step ∙ h)) c

  refused :
      {A X : Type 0} {out : Result ListingError A × ListingDb C} {a : A} {e : ListingError}
      {db' d : ListingDb C}
      → out ≡ (ok a, db')
      → out ≡ (err e, d)
      → X
  refused h step = cc

  told_row : ℕ → Vehicle C → VehicleMessage C → OutboxRow (VehicleMessage C)
  told_row event_id old message = record {
    id = event_id;
    aggregate_type = "vehicle";
    aggregate_id = old.id;
    message = message;
  }

  approving-Change :
      (event_id vehicle_id : ℕ) (db db' : ListingDb C) (v : Vehicle C)
      → contains event_id (ids_onto [] db.outbox) ≡ false
      → approve_vehicle event_id vehicle_id db ≡ (ok v, db')
      → Change db db'
  unfolding approve_vehicle get_by_id save told_row
  approving-Change event_id vehicle_id db db' v new h =
      elim (Option-cases (find vehicle_key vehicle_id db.vehicles)) [
        | inl absent ↦
            let step : approve_vehicle event_id vehicle_id db ≡ (err vehicle_not_found, db) =
              rw (absent, continue) in
            refused h step
        | inr (old, found) ↦ elim (Bool-cases (same_approval old.approval_status pending)) [
          | inl waiting ↦
              let decided : Vehicle C = record old { approval_status = approved } in
              let row = told_row event_id old (vehicle_approved decided) in
              let step : approve_vehicle event_id vehicle_id db ≡ (
                ok decided,
                record db {
                  vehicles = replace vehicle_key decided db.vehicles;
                  outbox = db.outbox ++ row ∷ [];
                },
              ) =
                rw (found, waiting, continue) in
              ends h step (told_of row old (at_key vehicle_id old db.vehicles found) new refl refl)
          | inr decided ↦
              let step : approve_vehicle event_id vehicle_id db
                  ≡ (err (invalid_approval_transition old.approval_status), db) =
                rw (found, decided, continue) in
              refused h step
        ]
      ]

  rejecting-Change :
      (vehicle_id : ℕ) (db db' : ListingDb C) (v : Vehicle C)
      → reject_vehicle vehicle_id db ≡ (ok v, db')
      → Change db db'
  unfolding reject_vehicle get_by_id save
  rejecting-Change vehicle_id db db' v h =
      elim (Option-cases (find vehicle_key vehicle_id db.vehicles)) [
        | inl absent ↦
            let step : reject_vehicle vehicle_id db ≡ (err vehicle_not_found, db) =
              rw (absent, continue) in
            refused h step
        | inr (old, found) ↦ elim (Bool-cases (same_approval old.approval_status pending)) [
          | inl waiting ↦
              let decided : Vehicle C = record old { approval_status = declined } in
              let step : reject_vehicle vehicle_id db
                  ≡ (ok decided, record db { vehicles = replace vehicle_key decided db.vehicles }) =
                rw (found, waiting, continue) in
              ends h step (
                rejected decided old (at_key vehicle_id old db.vehicles found) (ground arith) refl
                  refl refl)
          | inr decided ↦
              let step : reject_vehicle vehicle_id db
                  ≡ (err (invalid_approval_transition old.approval_status), db) =
                rw (found, decided, continue) in
              refused h step
        ]
      ]

  updating-Change :
      (event_id vehicle_id host_id : ℕ) (fields : VehicleFields C) (db db' : ListingDb C)
      (v : Vehicle C)
      → contains event_id (ids_onto [] db.outbox) ≡ false
      → update_vehicle event_id vehicle_id host_id fields db ≡ (ok v, db')
      → Change db db'
  unfolding update_vehicle get_owned_vehicle get_by_id save told_row
  updating-Change event_id vehicle_id host_id fields db db' v new h =
      elim (Option-cases (find vehicle_key vehicle_id db.vehicles)) [
        | inl absent ↦
            let step : update_vehicle event_id vehicle_id host_id fields db
                ≡ (err vehicle_not_found, db) =
              rw (absent, continue) in
            refused h step
        | inr (old, found) ↦ elim (Bool-cases (old.host_id == host_id)) [
          | inl own ↦
              let now = updated old fields in
              let row = told_row event_id old (vehicle_updated now) in
              let step : update_vehicle event_id vehicle_id host_id fields db ≡ (
                ok now,
                record db {
                  vehicles = replace vehicle_key now db.vehicles;
                  outbox = db.outbox ++ row ∷ [];
                },
              ) =
                rw (found, own, continue) in
              ends h step (told_of row old (at_key vehicle_id old db.vehicles found) new refl refl)
          | inr other ↦
              let step : update_vehicle event_id vehicle_id host_id fields db
                  ≡ (err not_vehicle_owner, db) =
                rw (found, other, continue) in
              refused h step
        ]
      ]

  blocking-Change :
      (b v h a z : ℕ) (db db' : ListingDb C) (block : AvailabilityBlock)
      → add_availability_block b v h a z db ≡ (ok block, db')
      → (db'.vehicles ≡ db.vehicles) × (db'.outbox ≡ db.outbox)
  unfolding add_availability_block get_owned_vehicle get_by_id insert_block
  blocking-Change b v h a z db db' block e = (ground arith, ground arith)

  module _ (is_latitude is_longitude : C → Bool) where
    pub request-Change :
        (q : Request C) (claims : Claims) (db db' : ListingDb C) (body : ListingBody C)
        → is_fresh q db ≡ true
        → (target is_latitude is_longitude q).build claims db ≡ (ok body, db')
        → Change db db'
    unfolding create_vehicle
    request-Change (creating v p) claims db db' body fresh h =
        let (made, done) =
          built-ok (λ (e : ListingError). server_error)
            (create_vehicle v claims.sub p.make p.model p.year p.daily_price_cents
              p.daily_mileage_limit p.booking_mode p.latitude p.longitude)
            of_vehicle db db' body h in
        ends done refl (added _ (ground arith) refl refl refl)
    request-Change (updating e v p) claims db db' body fresh h =
        let (made, done) =
          built-ok owner_failure (update_vehicle e v claims.sub p) of_vehicle db db' body h in
        updating-Change e v claims.sub p db db' made (ground arith) done
    request-Change (approving e v) claims db db' body fresh h =
        let (made, done) =
          built-ok (decision_failure "approve") (approve_vehicle e v) of_vehicle db db' body h in
        approving-Change e v db db' made (ground arith) done
    request-Change (rejecting v) claims db db' body fresh h =
        let (made, done) =
          built-ok (decision_failure "reject") (reject_vehicle v) of_vehicle db db' body h in
        rejecting-Change v db db' made done
    request-Change (blocking b v a z) claims db db' body fresh h =
        let (made, done) =
          built-ok block_failure (add_availability_block b v claims.sub a z) of_block db db' body
            h in
        let (same, unsent) = blocking-Change b v claims.sub a z db db' made done in kept same unsent
