-- ===== src/Booking/Routes/Admitted.antt =====
-- Which requests the endpoints of services/booking/routes.py that change bookings answer.
use Prim.Native.String.{count}
use car_flow_mvp.Base.{
  ℕ, ◌≡◌, refl, ◌≤◌, ◌<◌, ◌&&◌, ⊤, Bool, true, false, Option, String, leb, arith,
}
use car_flow_mvp.Base.Int.{ℤ, pos, negsuc, leb_ℤ}
use car_flow_mvp.Base.Result.{ok}
use car_flow_mvp.Shared.Http.{Response}
use car_flow_mvp.Shared.Auth.{Role, renter, host, Claims, same_role}
use car_flow_mvp.Shared.Endpoint.{serve, text_fits}
use car_flow_mvp.Shared.Endpoint.Answered.{HasKey, serve-Answered, Answered-HasKey}
use car_flow_mvp.Booking.Model.{BookingResponse, BookingDb, key_table}
use car_flow_mvp.Booking.Routes.{inspection_valid}
use car_flow_mvp.Booking.Routes.Authority.{accepting, rejecting, handing_over, taking_back}
use car_flow_mvp.Booking.Routes.Retry.{Request, creating, of_host, target}

-- Who asks for what: a renter for a new booking, a host for the rest.
abbrev pub asker : Request → Role
asker (creating response booking_id event_id vehicle_id start_date end_date) = renter
asker (of_host r) = host

-- A reading of the car: an odometer that is not negative, a part of a full tank in percent, and the
-- address of a photo, of 1 to 512 characters.
pub record IsReading (odometer fuel_percent : ℤ) (photo_url : String) : Type 0 where
  pub driven : (miles : ℕ) × (odometer ≡ pos miles)
  pub filled : (percent : ℕ) × (fuel_percent ≡ pos percent) × (percent ≤ 100)
  pub has_photo : 1 ≤ count photo_url
  pub fits_photo : count photo_url ≤ 512

-- What a request has to say: at least one night, and a reading where the car is given or taken back.
unfoldable pub IsSensible : Request → Type 0
IsSensible (creating response booking_id event_id vehicle_id start_date end_date) =
    start_date < end_date
IsSensible (of_host (accepting event_id booking_id)) = ⊤
IsSensible (of_host (rejecting event_id booking_id)) = ⊤
IsSensible (of_host (handing_over booking_id odometer fuel_percent photo_url)) =
    IsReading odometer fuel_percent photo_url
IsSensible (of_host (taking_back event_id booking_id odometer fuel_percent photo_url)) =
    IsReading odometer fuel_percent photo_url

both : (a b : Bool) → a && b ≡ true → (a ≡ true) × (b ≡ true)
both true b h = (refl, h)
both false b h = cc

not_negative : (a : ℤ) → leb_ℤ (pos 0) a ≡ true → (n : ℕ) × (a ≡ pos n)
not_negative (pos n) h = (n, refl)
not_negative (negsuc n) h = ground arith

percentage :
    (a : ℤ) → leb_ℤ (pos 0) a ≡ true → leb_ℤ a (pos 100) ≡ true → (n : ℕ) × (a ≡ pos n) × (n ≤ 100)
percentage (pos n) h k = (n, refl, ground arith)
percentage (negsuc n) h k = ground arith

read :
    (odometer fuel_percent : ℤ) (photo_url : String)
    → inspection_valid odometer fuel_percent photo_url ≡ true
    → IsReading odometer fuel_percent photo_url
read odometer fuel_percent photo_url h =
    let (measured, photo) =
      both (leb_ℤ (pos 0) odometer && (leb_ℤ (pos 0) fuel_percent && leb_ℤ fuel_percent (pos 100)))
        (text_fits 512 photo_url) h in
    let (driven, filled) =
      both (leb_ℤ (pos 0) odometer) (leb_ℤ (pos 0) fuel_percent && leb_ℤ fuel_percent (pos 100))
        measured in
    let (low, high) = both (leb_ℤ (pos 0) fuel_percent) (leb_ℤ fuel_percent (pos 100)) filled in
    let (some_text, short) = both (leb 1 (count photo_url)) (leb (count photo_url) 512) photo in
    record {
      driven = not_negative odometer driven;
      filled = percentage fuel_percent low high;
      has_photo = ground arith;
      fits_photo = ground arith;
    }

sensible : (q : Request) → (target q).payload_valid ≡ true → IsSensible q
unfolding IsSensible
sensible (creating l i e v a z) h = ground arith
sensible (of_host (accepting e i)) h = tt
sensible (of_host (rejecting e i)) h = tt
sensible (of_host (handing_over i o f p)) h = read o f p h
sensible (of_host (taking_back e i o f p)) h = read o f p h

asked :
    (q : Request) (claims : Claims)
    → same_role claims.role (target q).allowed_role ≡ true
    → same_role claims.role (asker q) ≡ true
asked (creating l i e v a z) claims h = h
asked (of_host (accepting e i)) claims h = h
asked (of_host (rejecting e i)) claims h = h
asked (of_host (handing_over i o f p)) claims h = h
asked (of_host (taking_back e i o f p)) claims h = h

module _ {H : Type 0} (hash_request_body : H → String) where
  -- A request that one of the five endpoints answers, be it the first of its key or a repetition, had a key
  -- that is not empty, came from a caller with the role that may ask for it, and said what it has to say: a
  -- booking has at least one night; a reading of the car has an odometer that is not negative, a fuel
  -- level from 0 to 100 percent, and a photo's address of 1 to 512 characters.
  pub answered_request :
      (q : Request) (claims : Claims) (key : Option String) (c : String) (body : H) (now : ℕ)
      (db : BookingDb) {response : Response BookingResponse}
      → (serve key_table hash_request_body (target q) claims key c body now db).0 ≡ ok response
      → HasKey key × (same_role claims.role (asker q) ≡ true) × IsSensible q
  answered_request q claims key c body now db h =
      let a = serve-Answered key_table hash_request_body (target q) claims key c body now db h in
      (
        Answered-HasKey key_table hash_request_body (target q) claims key c body now db _ _ a,
        asked q claims a.role,
        sensible q a.valid,
      )
