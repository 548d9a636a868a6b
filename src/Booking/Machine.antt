-- ===== src/Booking/Machine.antt =====
-- The booking service as one machine: its nine operations on the database, each in a transaction, in
-- any order and with any arguments. Between them the inbox and the table of keys change as they may.
pub mod Safety
pub mod Dates
pub mod History
use car_flow_mvp.Base.{ℕ, ◌≡◌, String, List}
use car_flow_mvp.Base.Int.{ℤ}
use car_flow_mvp.Base.Result.{ok}
use car_flow_mvp.Shared.Idempotency.{IdempotencyRow}
use car_flow_mvp.Booking.Model.{Booking, BookingResponse, BookingDb}
use car_flow_mvp.Booking.ListingClient.{ListingResponse}
use car_flow_mvp.Booking.Repository.{Action}
use car_flow_mvp.Booking.Service.{
  request_booking, accept_booking_request, reject_booking_request, record_handover, record_return,
  apply_payment_authorized, apply_payment_authorization_failed, apply_payment_captured,
  apply_payment_capture_failed,
}
use car_flow_mvp.Booking.Invariant.Begun.{empty_db}

pub data Operation : Type 0 where
  request :
      ListingResponse
      → (booking_id event_id renter_id vehicle_id start_date end_date : ℕ) → Operation
  accept reject : (event_id booking_id host_id : ℕ) → Operation
  handover : (booking_id host_id : ℕ) → ℤ → ℤ → String → Operation
  take_back : (event_id booking_id host_id : ℕ) → ℤ → ℤ → String → Operation
  authorized authorization_failed captured capture_failed : (event_id booking_id : ℕ) → Operation

unfoldable pub run : Operation → Action Booking
run (request response booking_id event_id renter_id vehicle_id start_date end_date) =
    request_booking response booking_id event_id renter_id vehicle_id start_date end_date
run (accept event_id booking_id host_id) = accept_booking_request event_id booking_id host_id
run (reject event_id booking_id host_id) = reject_booking_request event_id booking_id host_id
run (handover booking_id host_id odometer fuel photo) =
    record_handover booking_id host_id odometer fuel photo
run (take_back event_id booking_id host_id odometer fuel photo) =
    record_return event_id booking_id host_id odometer fuel photo
run (authorized event_id booking_id) = apply_payment_authorized event_id booking_id
run (authorization_failed event_id booking_id) =
    apply_payment_authorization_failed event_id booking_id
run (captured event_id booking_id) = apply_payment_captured event_id booking_id
run (capture_failed event_id booking_id) = apply_payment_capture_failed event_id booking_id

-- A database that the service can have: an operation that raises is rolled back, so only those that
-- return make a step.
pub data Reach : BookingDb → Type 0 where
  start : Reach empty_db
  commit :
      (op : Operation) (b : Booking) {db db' : BookingDb}
      → Reach db
      → run op db ≡ (ok b, db')
      → Reach db'
  bookkeeping :
      (ids : List ℕ) (rows : List (IdempotencyRow BookingResponse)) {db : BookingDb}
      → Reach db
      → Reach (record db { inbox = ids; keys = rows })
