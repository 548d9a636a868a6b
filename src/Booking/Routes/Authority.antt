-- ===== src/Booking/Routes/Authority.antt =====
-- Who may change a booking: the endpoints of services/booking/routes.py that change a stored booking.
use text.Mathlib.Text.{◌==◌ as str_eq}
use car_flow_mvp.Base.{ℕ, ◌≡◌, refl, true, false, none, some, String, ◌==◌}
use car_flow_mvp.Base.Int.{ℤ}
use car_flow_mvp.Base.Result.{err}
use car_flow_mvp.Base.Exec.{continue}
use car_flow_mvp.Base.Table.{find}
use car_flow_mvp.Shared.Http.{Failure, http_exception}
use car_flow_mvp.Shared.Auth.{Claims, host, same_role, require_role}
use car_flow_mvp.Shared.Idempotency.{select_key, make_guard, respond_idempotently}
use car_flow_mvp.Shared.Endpoint.{run_endpoint, serve}
use car_flow_mvp.Booking.Model.{Booking, BookingDb, key_table}
use car_flow_mvp.Booking.Repository.{booking_key, get_by_id}
use car_flow_mvp.Booking.Service.{
  accept_booking_request, reject_booking_request, record_handover, record_return,
}
use car_flow_mvp.Booking.Routes.{BookingEndpoint, accept, reject, handover, return_car}

-- A request of a host for a stored booking.
pub data HostRequest : Type 0 where
  accepting rejecting : (event_id booking_id : ℕ) → HostRequest
  handing_over : (booking_id : ℕ) → ℤ → ℤ → String → HostRequest
  taking_back : (event_id booking_id : ℕ) → ℤ → ℤ → String → HostRequest

abbrev pub endpoint_of : HostRequest → BookingEndpoint
endpoint_of (accepting event_id booking_id) = accept event_id booking_id
endpoint_of (rejecting event_id booking_id) = reject event_id booking_id
endpoint_of (handing_over booking_id odometer fuel photo) = handover booking_id odometer fuel photo
endpoint_of (taking_back event_id booking_id odometer fuel photo) =
    return_car event_id booking_id odometer fuel photo

abbrev pub booking_of : HostRequest → ℕ
booking_of (accepting event_id booking_id) = booking_id
booking_of (rejecting event_id booking_id) = booking_id
booking_of (handing_over booking_id odometer fuel photo) = booking_id
booking_of (taking_back event_id booking_id odometer fuel photo) = booking_id

abbrev pub not_yours : Failure
not_yours = http_exception 403 "not your booking"

stranger_builds :
    (r : HostRequest) (claims : Claims) (b : Booking) (db : BookingDb)
    → find booking_key (booking_of r) db.bookings ≡ some b
    → (b.host_id == claims.sub) ≡ false
    → (endpoint_of r).build claims db ≡ (err not_yours, db)
unfolding accept_booking_request reject_booking_request record_handover record_return get_by_id
stranger_builds (accepting e i) claims b db found other = rw (found, other, continue)
stranger_builds (rejecting e i) claims b db found other = rw (found, other, continue)
stranger_builds (handing_over i o f p) claims b db found other = rw (found, other, continue)
stranger_builds (taking_back e i o f p) claims b db found other = rw (found, other, continue)

for_hosts : (r : HostRequest) → (endpoint_of r).allowed_role ≡ host
for_hosts (accepting e i) = refl
for_hosts (rejecting e i) = refl
for_hosts (handing_over i o f p) = refl
for_hosts (taking_back e i o f p) = refl

module _ {H : Type 0} (hash_request_body : H → String) where
  -- A host's valid request with a new key for a booking of another host is answered by 403, and nothing is
  -- changed, whichever of the four endpoints it is sent to and whatever the booking's status is.
  pub stranger_refused :
      (r : HostRequest) (claims : Claims) (c k : String) (body : H) (now : ℕ) (b : Booking)
      (db : BookingDb)
      → str_eq k "" ≡ false
      → select_key c k db.keys ≡ none
      → (endpoint_of r).payload_valid ≡ true
      → same_role claims.role host ≡ true
      → find booking_key (booking_of r) db.bookings ≡ some b
      → (b.host_id == claims.sub) ≡ false
      → serve key_table hash_request_body (endpoint_of r) claims (some k) c body now db
        ≡ (err not_yours, db)
  unfolding serve run_endpoint make_guard require_role respond_idempotently
  stranger_refused r claims c k body now b db named new valid role found other =
      rw (named, new, valid, for_hosts r, role, stranger_builds r claims b db found other)
