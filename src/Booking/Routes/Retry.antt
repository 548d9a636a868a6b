-- ===== src/Booking/Routes/Retry.antt =====
-- A request that is sent again to an endpoint of services/booking/routes.py.
use car_flow_mvp.Base.{ℕ, ◌≡◌, true, some, String}
use car_flow_mvp.Base.Result.{ok}
use car_flow_mvp.Shared.Http.{Response}
use car_flow_mvp.Shared.Auth.{Claims, same_role}
use car_flow_mvp.Shared.Idempotency.{select_key}
use car_flow_mvp.Shared.Endpoint.{serve}
use car_flow_mvp.Shared.Endpoint.Repeated.{built-ok, repeated_answer}
use car_flow_mvp.Booking.Model.{BookingResponse, BookingDb, key_table}
use car_flow_mvp.Booking.ListingClient.{ListingResponse}
use car_flow_mvp.Booking.Service.{
  request_booking, accept_booking_request, reject_booking_request, record_handover, record_return,
}
use car_flow_mvp.Booking.Settle.Operations.{accept-Settled, reject-Settled}
use car_flow_mvp.Booking.Settle.Inspections.{handover-Settled, return-Settled}
use car_flow_mvp.Booking.Create.{request-Created}
use car_flow_mvp.Booking.Routes.{
  BookingEndpoint, create, booking_response, stored_failure, create_failure,
}
use car_flow_mvp.Booking.Routes.Authority.{
  HostRequest, accepting, rejecting, handing_over, taking_back, endpoint_of,
}

-- A request to one of the five endpoints that change bookings.
pub data Request : Type 0 where
  creating : ListingResponse → (booking_id event_id vehicle_id start_date end_date : ℕ) → Request
  of_host : HostRequest → Request

abbrev pub target : Request → BookingEndpoint
target (creating response booking_id event_id vehicle_id start_date end_date) =
    create response booking_id event_id vehicle_id start_date end_date
target (of_host r) = endpoint_of r

pub request-LeavesKeys :
    (q : Request) (claims : Claims)
    → (s s' : BookingDb) (r : BookingResponse) → (target q).build claims s ≡ (ok r, s')
    → s'.keys ≡ s.keys
request-LeavesKeys (creating l i e v a z) claims s s' r h =
    let (b, done) =
      built-ok create_failure (request_booking l i e claims.sub v a z) booking_response s s' r h in
    (request-Created l i e claims.sub v a z s s' b done).3.keys
request-LeavesKeys (of_host (accepting e i)) claims s s' r h =
    let (b, done) =
      built-ok stored_failure (accept_booking_request e i claims.sub) booking_response s s' r h in
    (accept-Settled e i s s' b claims.sub done).3.keys
request-LeavesKeys (of_host (rejecting e i)) claims s s' r h =
    let (b, done) =
      built-ok stored_failure (reject_booking_request e i claims.sub) booking_response s s' r h in
    (reject-Settled e i s s' b claims.sub done).3.keys
request-LeavesKeys (of_host (handing_over i o f p)) claims s s' r h =
    let (b, done) =
      built-ok stored_failure (record_handover i claims.sub o f p) booking_response s s' r h in
    (handover-Settled i claims.sub o f p s s' b done).3.keys
request-LeavesKeys (of_host (taking_back e i o f p)) claims s s' r h =
    let (b, done) =
      built-ok stored_failure (record_return e i claims.sub o f p) booking_response s s' r h in
    (return-Settled i claims.sub o f p s s' b e done).3.keys

module _ {H : Type 0} (hash_request_body : H → String) where
  -- A renter or host who sends an answered valid request again, with its key and body, gets the answer of
  -- the first one, and nothing is changed: for the create, accept, reject, handover and return
  -- endpoints, in every later state in which the key's row is still the one of the first request.
  pub booking_request_repeated :
      (q : Request) (claims : Claims) (c k : String) (body : H) (now now' : ℕ)
      (db later : BookingDb) {response : Response BookingResponse}
      → (target q).payload_valid ≡ true
      → same_role claims.role (target q).allowed_role ≡ true
      → (serve key_table hash_request_body (target q) claims (some k) c body now db).0 ≡ ok response
      → select_key c k later.keys
        ≡ select_key c k
            (serve key_table hash_request_body (target q) claims (some k) c body now db).1.keys
      → serve key_table hash_request_body (target q) claims (some k) c body now' later
        ≡ (ok response, later)
  booking_request_repeated q claims c k body now now' db later valid role answered kept =
      repeated_answer key_table hash_request_body (target q) (target q) claims c k body now now' db
        later valid valid role role (request-LeavesKeys q claims) answered kept
