-- ===== src/Booking/Domain/Lifecycle.antt =====
-- The life of a booking: which statuses follow which, and what the events of a transition say.
use car_flow_mvp.Base.{◌≡◌, Bool, true, false, List, [], ◌∷◌, String, arith}
use car_flow_mvp.Base.Int.{ℤ}
use car_flow_mvp.Base.Result.{Result, ok, ◌>>=◌}
use car_flow_mvp.Booking.Domain.Types.{
  BookingStatus, requested, confirmed, active, completed, cancelled, rejected, BookingState,
  Transition, DomainError, DomainEvent,
}
use car_flow_mvp.Booking.Domain.Types.{
  booking_requested, booking_rejected, booking_confirmed, booking_cancelled,
  booking_handover_recorded, booking_completed,
}
use car_flow_mvp.Booking.Domain.{
  accept_request, reject_request, confirm_after_payment_authorized,
  cancel_after_payment_authorization_failed, record_handover, record_return,
  complete_after_payment_captured, note_payment_capture_failed,
}

-- The eight transitions under one name.
pub data Command : Type 0 where
  accept reject confirm cancel : Command
  handover take_back : ℤ → ℤ → String → Command
  complete note_failure : Command

unfoldable pub decide : Command → BookingState → Result DomainError Transition
decide accept state = accept_request state
decide reject state = reject_request state
decide confirm state = confirm_after_payment_authorized state
decide cancel state = cancel_after_payment_authorization_failed state
decide (handover odometer fuel photo) state = record_handover state odometer fuel photo
decide (take_back odometer fuel photo) state =
    record_return state odometer fuel photo >>= λ returned. ok returned.0
decide complete state = complete_after_payment_captured state
decide note_failure state = note_payment_capture_failed state

-- The arrows of the state machine.
abbrev pub follows : BookingStatus → BookingStatus → Bool
follows requested requested = true
follows requested confirmed = true
follows requested cancelled = true
follows requested rejected = true
follows confirmed active = true
follows active active = true
follows active completed = true
follows _ _ = false

-- What an event of the log says of the status.
abbrev pub status_after : BookingStatus → DomainEvent → BookingStatus
status_after s booking_requested = requested
status_after s booking_rejected = rejected
status_after s booking_confirmed = confirmed
status_after s booking_cancelled = cancelled
status_after s (booking_handover_recorded odometer fuel photo) = active
status_after s booking_completed = completed
status_after s _ = s

-- The status that a log of events, oldest first, leaves.
abbrev pub replay_status : BookingStatus → List DomainEvent → BookingStatus
replay_status s [] = s
replay_status s (e ∷ es) = replay_status (status_after s e) es

abbrev pub is_empty : List DomainEvent → Bool
is_empty [] = true
is_empty (e ∷ es) = false

-- A transition follows an arrow of the state machine, logs at least one event, and logs events
-- that lead from the old status to the new one.
pub record IsLawful (state : BookingState) (t : Transition) : Type 0 where
  pub arrow : follows state.status t.next_status ≡ true
  pub nonempty : is_empty t.events ≡ false
  pub logged : replay_status state.status t.events ≡ t.next_status

-- Every transition that is not refused is lawful.
pub decide-IsLawful :
    (c : Command) (state : BookingState) {t : Transition} → decide c state ≡ ok t → IsLawful state t
unfolding decide accept_request reject_request confirm_after_payment_authorized
    cancel_after_payment_authorization_failed record_handover record_return
    complete_after_payment_captured note_payment_capture_failed
decide-IsLawful accept state h = ground arith
decide-IsLawful reject state h = ground arith
decide-IsLawful confirm state h = ground arith
decide-IsLawful cancel state h = ground arith
decide-IsLawful (handover odometer fuel photo) state h = ground arith
decide-IsLawful (take_back odometer fuel photo) state h = ground arith
decide-IsLawful complete state h = ground arith
decide-IsLawful note_failure state h = ground arith
