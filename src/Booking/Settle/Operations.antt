-- ===== src/Booking/Settle/Operations.antt =====
-- Each operation of services/booking/service.py on a stored booking implements `Settled`.
use car_flow_mvp.Base.{ℕ, ◌≡◌, List, [], ◌∷◌, ⊤, arith}
use car_flow_mvp.Base.Result.{ok}
use car_flow_mvp.Shared.Outbox.{OutboxRow}
use car_flow_mvp.Booking.Domain.{BookingState, BookingStatus, DomainEvent, DomainError, Transition}
use car_flow_mvp.Booking.Domain
use car_flow_mvp.Booking.Domain.Lifecycle.{
  Command, accept, reject, confirm, cancel, handover, take_back, complete, note_failure, decide,
}
use car_flow_mvp.Booking.Model.{
  Booking, BookingMessage, authorize_payment_requested, rejected_message, confirmed_message,
  cancelled_message, completed_message, capture_failed_message, BookingDb,
}
use car_flow_mvp.Booking.Repository.{state_of}
use car_flow_mvp.Booking.Service.{
  apply_transition, hold_amount, lifecycle_data, emit_authorize_payment_requested,
  emit_domain_event, accept_booking_request, reject_booking_request, apply_payment_authorized,
  apply_payment_authorization_failed, apply_payment_captured, apply_payment_capture_failed,
}
use car_flow_mvp.Booking.Settle.{Settled}
use car_flow_mvp.Booking.Settle.Inversion.{closing-ok, reaction-ok, hosted-ok}

-- The messages of each operation.
abbrev pub message_row : ℕ → Booking → BookingMessage → List (OutboxRow BookingMessage)
message_row event_id b message =
    record { id = event_id; aggregate_type = "booking"; aggregate_id = b.id; message = message }
    ∷ []

abbrev IsPlain : Command → Type 0
IsPlain (handover odometer fuel photo) = ⊥
IsPlain (take_back odometer fuel photo) = ⊥
IsPlain _ = ⊤

-- Only a handover and a return change more of the row than its status and version.
plain :
    (b : Booking) (s : BookingState) (t : Transition) (c : Command)
    → IsPlain c
    → decide c s ≡ ok t
    → apply_transition b t ≡ b
unfolding apply_transition decide Domain.accept_request Domain.reject_request
    Domain.confirm_after_payment_authorized Domain.cancel_after_payment_authorization_failed
    Domain.complete_after_payment_captured Domain.note_payment_capture_failed
plain b s t accept p h = ground arith
plain b s t reject p h = ground arith
plain b s t confirm p h = ground arith
plain b s t cancel p h = ground arith
plain b s t (handover o f u) p h = absurd p
plain b s t (take_back o f u) p h = absurd p
plain b s t complete p h = ground arith
plain b s t note_failure p h = ground arith

-- What an operation that returned has done: for a row that its caller may change, the transition
-- of the command `c`, and the messages `sent`.
abbrev pub Done :
    Command
    → (booking_id : ℕ) → (Booking → Type 0)
    → BookingDb
    → Booking
    → (Booking → List (OutboxRow BookingMessage))
    → BookingDb
    → Type 0
Done c booking_id P db b sent db' =
    (before : Booking) × (before.id ≡ booking_id) × P before × Settled c db before b (sent b) db'

abbrev pub IsHosted : ℕ → Booking → Type 0
IsHosted host_id before = before.host_id ≡ host_id

abbrev pub IsAny : Booking → Type 0
IsAny before = ⊤

module _ (event_id booking_id : ℕ) (db db' : BookingDb) (b : Booking) where
  module _ (host_id : ℕ) where
    pub accept-Settled :
        accept_booking_request event_id booking_id host_id db ≡ (ok b, db')
        → Done accept booking_id
            (IsHosted host_id)
            db
            b
            (λ x.
              message_row event_id x (authorize_payment_requested x.id x.renter_id (hold_amount x)))
            db'
    unfolding accept_booking_request decide emit_authorize_payment_requested
    accept-Settled h =
        let (before, t, named, found, party, allowed, rest) =
          hosted-ok Domain.accept_request _ booking_id db db' b host_id h in
        (
          before,
          named,
          party,
          closing-ok accept db db' before b t before
              (λ x.
                message_row event_id x
                  (authorize_payment_requested x.id x.renter_id (hold_amount x)))
              found allowed (plain before (state_of before) t accept tt allowed) rest,
        )

    pub reject-Settled :
        reject_booking_request event_id booking_id host_id db ≡ (ok b, db')
        → Done reject booking_id
            (IsHosted host_id)
            db
            b
            (λ x. message_row event_id x (rejected_message (lifecycle_data x)))
            db'
    unfolding reject_booking_request decide emit_domain_event
    reject-Settled h =
        let (before, t, named, found, party, allowed, rest) =
          hosted-ok Domain.reject_request _ booking_id db db' b host_id h in
        (
          before,
          named,
          party,
          closing-ok reject db db' before b t before
              (λ x. message_row event_id x (rejected_message (lifecycle_data x))) found allowed
              (plain before (state_of before) t reject tt allowed) rest,
        )

  pub authorized-Settled :
      apply_payment_authorized event_id booking_id db ≡ (ok b, db')
      → Done confirm booking_id IsAny db b
          (λ x. message_row event_id x (confirmed_message (lifecycle_data x)))
          db'
  unfolding apply_payment_authorized decide emit_domain_event
  authorized-Settled h =
      let (before, t, named, found, any, allowed, rest) =
        reaction-ok Domain.confirm_after_payment_authorized _ booking_id db db' b h in
      (
        before,
        named,
        any,
        closing-ok confirm db db' before b t before
            (λ x. message_row event_id x (confirmed_message (lifecycle_data x))) found allowed
            (plain before (state_of before) t confirm tt allowed) rest,
      )

  pub authorization_failed-Settled :
      apply_payment_authorization_failed event_id booking_id db ≡ (ok b, db')
      → Done cancel booking_id IsAny db b
          (λ x. message_row event_id x (cancelled_message (lifecycle_data x)))
          db'
  unfolding apply_payment_authorization_failed decide emit_domain_event
  authorization_failed-Settled h =
      let (before, t, named, found, any, allowed, rest) =
        reaction-ok Domain.cancel_after_payment_authorization_failed _ booking_id db db' b h in
      (
        before,
        named,
        any,
        closing-ok cancel db db' before b t before
            (λ x. message_row event_id x (cancelled_message (lifecycle_data x))) found allowed
            (plain before (state_of before) t cancel tt allowed) rest,
      )

  pub captured-Settled :
      apply_payment_captured event_id booking_id db ≡ (ok b, db')
      → Done complete booking_id IsAny db b
          (λ x. message_row event_id x (completed_message (lifecycle_data x)))
          db'
  unfolding apply_payment_captured decide emit_domain_event
  captured-Settled h =
      let (before, t, named, found, any, allowed, rest) =
        reaction-ok Domain.complete_after_payment_captured _ booking_id db db' b h in
      (
        before,
        named,
        any,
        closing-ok complete db db' before b t before
            (λ x. message_row event_id x (completed_message (lifecycle_data x))) found allowed
            (plain before (state_of before) t complete tt allowed) rest,
      )

  pub capture_failed-Settled :
      apply_payment_capture_failed event_id booking_id db ≡ (ok b, db')
      → Done note_failure booking_id IsAny db b
          (λ x. message_row event_id x (capture_failed_message (lifecycle_data x)))
          db'
  unfolding apply_payment_capture_failed decide emit_domain_event
  capture_failed-Settled h =
      let (before, t, named, found, any, allowed, rest) =
        reaction-ok Domain.note_payment_capture_failed _ booking_id db db' b h in
      (
        before,
        named,
        any,
        closing-ok note_failure db db' before b t before
            (λ x. message_row event_id x (capture_failed_message (lifecycle_data x))) found allowed
            (plain before (state_of before) t note_failure tt allowed) rest,
      )
