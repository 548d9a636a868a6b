-- ===== src/Booking/Settle/Inspections.antt =====
-- The handover and the return of the car, in services/booking/service.py, implement `Settled`.
use car_flow_mvp.Base.{ℕ, ◌≡◌, refl, sym, ap, subst, ◌∙◌, String, List, [], arith}
use car_flow_mvp.Base.Int.{ℤ}
use car_flow_mvp.Base.Result.{ok}
use car_flow_mvp.Shared.Outbox.{OutboxRow}
use car_flow_mvp.Booking.Domain.{BookingState, BookingStatus, DomainEvent, DomainError, Transition}
use car_flow_mvp.Booking.Domain
use car_flow_mvp.Booking.Domain.Lifecycle.{handover, take_back, decide}
use car_flow_mvp.Booking.Model.{Booking, BookingMessage, capture_payment_requested, BookingDb}
use car_flow_mvp.Booking.Repository.{state_of}
use car_flow_mvp.Booking.Service.{apply_transition, hold_amount, record_handover, record_return}
use car_flow_mvp.Booking.Settle.{Settled}
use car_flow_mvp.Booking.Settle.Operations.{message_row, Done, IsHosted}
use car_flow_mvp.Booking.Settle.Inversion.{silent_closing-ok, closing-ok, hosted-ok}

-- The overage that a return computes is the one that it writes to the row.
overage_written :
    (b : Booking) (s : BookingState) (odometer fuel : ℤ) (photo : String) (a : Transition × ℤ)
    → Domain.record_return s odometer fuel photo ≡ ok a
    → (apply_transition b a.0).overage_cents ≡ a.1
unfolding Domain.record_return apply_transition
overage_written b s odometer fuel photo a h = ground arith

abbrev pub capture_row : ℕ → Booking → ℤ → List (OutboxRow BookingMessage)
capture_row event_id x overage =
    message_row event_id x (capture_payment_requested x.id x.host_id (hold_amount x) overage)

module _ {odometer fuel : ℤ} {photo : String} (event_id : ℕ) (db db' : BookingDb)
    (before b : Booking) (a : Transition × ℤ)
    (allowed : Domain.record_return (state_of before) odometer fuel photo ≡ ok a) where
  overage_on_row :
      Settled (take_back odometer fuel photo) db before b (capture_row event_id b a.1) db'
      → Settled
          (take_back odometer fuel photo)
          db
          before
          b
          (capture_row event_id b b.overage_cents)
          db'
  unfolding decide
  overage_on_row settled =
      let t = settled.transition in
      let decided_ : decide (take_back odometer fuel photo) (state_of before) ≡ ok a.0 =
        rw allowed in
      let same : a.0 ≡ t = cc (decided_, settled.allowed) in
      let overage : b.overage_cents ≡ a.1 =
        ap (λ (x : Booking). x.overage_cents) settled.moved
        ∙ ap (λ (u : Transition). (apply_transition before u).overage_cents) (sym same)
        ∙ overage_written before (state_of before) odometer fuel photo a allowed in
      subst
        (λ (z : ℤ).
          Settled (take_back odometer fuel photo) db before b (capture_row event_id b z) db')
        (sym overage) settled

module _ (booking_id host_id : ℕ) (odometer fuel : ℤ) (photo : String) where
  module _ (db db' : BookingDb) (b : Booking) where
    -- A handover sends nothing.
    pub handover-Settled :
        record_handover booking_id host_id odometer fuel photo db ≡ (ok b, db')
        → Done (handover odometer fuel photo) booking_id (IsHosted host_id) db b (λ x. []) db'
    unfolding record_handover decide
    handover-Settled h =
        let (before, t, named, found, party, allowed, rest) =
          hosted-ok (λ s. Domain.record_handover s odometer fuel photo) _ booking_id db db' b
            host_id h in
        (
          before,
          named,
          party,
          silent_closing-ok (handover odometer fuel photo) db db' before b t found allowed rest,
        )

    -- A return asks for the capture of the hold and of the overage that stands on the row.
    pub return-Settled :
        (event_id : ℕ)
        → record_return event_id booking_id host_id odometer fuel photo db ≡ (ok b, db')
        → Done
            (take_back odometer fuel photo)
            booking_id
            (IsHosted host_id)
            db
            b
            (λ x. capture_row event_id x x.overage_cents)
            db'
    unfolding record_return decide
    return-Settled event_id h =
        let (before, a, named, found, party, allowed, rest) =
          hosted-ok (λ s. Domain.record_return s odometer fuel photo) _ booking_id db db' b host_id
            h in
        (
          before,
          named,
          party,
          overage_on_row event_id db db' before b a allowed (
              closing-ok (take_back odometer fuel photo) db db' before b a.0
                (apply_transition before a.0) (λ x. capture_row event_id x a.1) found (rw allowed)
                refl rest),
        )
