-- ===== src/Booking/Invariant/Log.antt =====
-- What appending a transition's events does to the log `booking_events`.
use car_flow_mvp.Base.{
  ℕ, ◌+◌, ◌≡◌, refl, sym, ◌∙◌, false, ◌&&◌, List, [], ◌∷◌, ◌++◌, ◌==◌, ltb, leb, length, arith,
  Bool-cases, inl, inr,
}
use car_flow_mvp.Booking.Domain.{BookingStatus, DomainEvent}
use car_flow_mvp.Booking.Domain.Lifecycle.{replay_status, status_after}
use car_flow_mvp.Booking.Model.{BookingEvent}
use car_flow_mvp.Booking.Repository.{has_event}
use car_flow_mvp.Booking.Settle.{logged}
use car_flow_mvp.Booking.Invariant.{history}

pub has_event-logged :
    (id v k : ℕ) (es : List DomainEvent)
    → has_event id k (logged id v es) ≡ (ltb v k && leb k (v + length es))
unfolding has_event
has_event-logged id v k [] = ground arith
has_event-logged id v k (e ∷ es) = ground (arith, has_event-logged id (v + 1) k es)

pub has_event-logged_other :
    (id j v k : ℕ) (es : List DomainEvent)
    → (j == id) ≡ false
    → has_event id k (logged j v es) ≡ false
unfolding has_event
has_event-logged_other id j v k [] h = refl
has_event-logged_other id j v k (e ∷ es) h =
    ground (arith, has_event-logged_other id j (v + 1) k es h)

pub history-append :
    (id : ℕ) (xs ys : List BookingEvent) → history id (xs ++ ys) ≡ history id xs ++ history id ys
unfolding history
history-append id [] ys = refl
history-append id (x ∷ xs) ys = ground (arith, history-append id xs ys)

pub history-logged : (id v : ℕ) (es : List DomainEvent) → history id (logged id v es) ≡ es
unfolding history
history-logged id v [] = refl
history-logged id v (e ∷ es) = ground (arith, history-logged id (v + 1) es)

pub history-logged_other :
    (id j v : ℕ) (es : List DomainEvent) → (j == id) ≡ false → history id (logged j v es) ≡ []
unfolding history
history-logged_other id j v [] h = refl
history-logged_other id j v (e ∷ es) h = ground (arith, history-logged_other id j (v + 1) es h)

-- A booking without rows in the log has no history.
pub history-absent :
    (id : ℕ) (events : List BookingEvent)
    → ((v : ℕ) → has_event id v events ≡ false)
    → history id events ≡ []
unfolding has_event history
history-absent id [] h = refl
history-absent id (e ∷ events) h = elim (Bool-cases (e.booking_id == id)) [
  | inl mine ↦ ground (arith, h e.version)
  | inr other ↦ rw other (history-absent id events (λ v. sym (rw other) ∙ h v))
]

pub replay_status-append :
    (s : BookingStatus) (xs ys : List DomainEvent)
    → replay_status s (xs ++ ys) ≡ replay_status (replay_status s xs) ys
replay_status-append s [] ys = refl
replay_status-append s (x ∷ xs) ys = replay_status-append (status_after s x) xs ys
