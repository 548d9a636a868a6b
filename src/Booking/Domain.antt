-- ===== src/Booking/Domain.antt =====
-- services/booking/domain.py: the transitions of a booking, as pure functions of its state.
mod Types
pub mod Lifecycle
pub mod Overage
pub use Types.*
use car_flow_mvp.Base.{ℕ, ◌+◌, Option, none, some, String, [], ◌∷◌, ⊤, if◌then◌else◌}
use car_flow_mvp.Base.Int.{ℤ, pos, sub_ℕ, max_ℤ, leb_ℤ, ◌-ℤ◌, ◌*ℤ◌}
use car_flow_mvp.Base.Result.{Result, ok, err, ◌>>=◌, ◌>>◌, guard}

abbrev pub overage_rate_cents_per_mile : ℤ
overage_rate_cents_per_mile = pos 50

-- `(end_date - start_date).days`, for dates as day numbers.
abbrev pub days_between : ℕ → ℕ → ℤ
days_between start_date end_date = sub_ℕ end_date start_date

unfoldable pub rental_days : BookingState → ℤ
rental_days state = max_ℤ (days_between state.start_date state.end_date) (pos 1)

unfoldable pub require_status : BookingState → BookingStatus → Result DomainError ⊤
require_status state expected =
    guard (same_status state.status expected) (unexpected_status state.status expected)

unfoldable pub accept_request : BookingState → Result DomainError Transition
unfolding require_status
accept_request state = do
  guard (same_mode state.booking_mode request) not_request_mode
  require_status state requested
  ok (record { events = booking_request_accepted ∷ []; next_status = requested })

unfoldable pub reject_request : BookingState → Result DomainError Transition
unfolding require_status
reject_request state = do
  require_status state requested
  ok (record { events = booking_rejected ∷ []; next_status = rejected })

unfoldable pub confirm_after_payment_authorized : BookingState → Result DomainError Transition
unfolding require_status
confirm_after_payment_authorized state = do
  require_status state requested
  ok (record { events = payment_authorized ∷ booking_confirmed ∷ []; next_status = confirmed })

unfoldable pub cancel_after_payment_authorization_failed :
    BookingState → Result DomainError Transition
unfolding require_status
cancel_after_payment_authorization_failed state = do
  require_status state requested
  ok (record {
    events = payment_authorization_failed ∷ booking_cancelled ∷ [];
    next_status = cancelled;
  })

unfoldable pub record_handover : BookingState → ℤ → ℤ → String → Result DomainError Transition
unfolding require_status
record_handover state odometer fuel_percent photo_url = do
  require_status state confirmed
  ok (record {
    events = booking_handover_recorded odometer fuel_percent photo_url ∷ [];
    next_status = active;
  })

unfoldable pub compute_overage_cents : ℤ → ℤ → ℤ → ℤ → ℤ
compute_overage_cents start_odometer end_odometer daily_mileage_limit days =
    let miles_driven = end_odometer -ℤ start_odometer in
    let miles_allowed = daily_mileage_limit *ℤ days in
    if leb_ℤ miles_driven miles_allowed
    then pos 0
    else (miles_driven -ℤ miles_allowed) *ℤ overage_rate_cents_per_mile

-- `end_odometer - None` raises a TypeError.
unfoldable pub overage_of : BookingState → ℤ → Result DomainError ℤ
overage_of state odometer = elim state.start_odometer [
  | none ↦ err start_odometer_missing
  | some start_odometer ↦
      ok (
        compute_overage_cents start_odometer odometer state.daily_mileage_limit (rental_days state))
]

unfoldable pub record_return : BookingState → ℤ → ℤ → String → Result DomainError (Transition × ℤ)
unfolding require_status overage_of
record_return state odometer fuel_percent photo_url = do
  require_status state active
  overage_cents ← overage_of state odometer
  ok (
    record {
      events = booking_return_recorded odometer fuel_percent photo_url overage_cents ∷ [];
      next_status = active;
    },
    overage_cents,
  )

unfoldable pub complete_after_payment_captured : BookingState → Result DomainError Transition
unfolding require_status
complete_after_payment_captured state = do
  require_status state active
  ok (record { events = payment_captured ∷ booking_completed ∷ []; next_status = completed })

unfoldable pub note_payment_capture_failed : BookingState → Result DomainError Transition
unfolding require_status
note_payment_capture_failed state = do
  require_status state active
  ok (record { events = payment_capture_failed ∷ []; next_status = active })
