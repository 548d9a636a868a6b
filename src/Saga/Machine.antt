-- ===== src/Saga/Machine.antt =====
-- Both services as one machine: what users do, what the consumers do with any message that the other
-- service has sent, again and in any order, and what Stripe's webhook does.
use car_flow_mvp.Base.{
  ℕ, ◌≡◌, sym, subst, Bool, true, false, Option, String, List, ◌∷◌, ◌++◌, inl, inr,
}
use car_flow_mvp.Base.Result.{ok}
use car_flow_mvp.Shared.Outbox.{OutboxRow, envelope_of}
use car_flow_mvp.Shared.Consumer.{dispatch, process}
use car_flow_mvp.Shared.Consumer.ExactlyOnce.{process-ok, dispatch-ok}
use car_flow_mvp.Shared.Idempotency.{IdempotencyRow}
use car_flow_mvp.Booking.Model as BookingTables
use car_flow_mvp.Booking.Model.{Booking, BookingMessage, BookingResponse, BookingDb}
use car_flow_mvp.Booking.Consumers.{payment_event_handlers, handled}
use car_flow_mvp.Booking.Service.{
  apply_payment_authorized, apply_payment_authorization_failed, apply_payment_captured,
  apply_payment_capture_failed,
}
use car_flow_mvp.Booking.Invariant.Begun.{empty_db}
use car_flow_mvp.Booking.Machine as BookingMachine
use car_flow_mvp.Booking.Machine.{
  Operation, request, accept, reject, handover, take_back, authorized, authorization_failed,
  captured, capture_failed, run,
}
use car_flow_mvp.Payment.Model as PaymentTables
use car_flow_mvp.Payment.Model.{
  PaymentMessage, payment_authorized, payment_authorization_failed, payment_captured,
  payment_capture_failed, PaymentDb,
}
use car_flow_mvp.Payment.Service.{StripeClient, Ids, booking_command_handlers}
use car_flow_mvp.Payment.Routes.{stripe_webhook, webhook-ok}
use car_flow_mvp.Payment.Ledger.{empty_db as no_payments}
use car_flow_mvp.Payment.Machine as PaymentMachine

pub record System : Type 0 where
  pub booking : BookingDb
  pub payment : PaymentDb

-- The operations that a renter or a host asks for.
abbrev pub is_for_users : Operation → Bool
is_for_users (authorized event_id booking_id) = false
is_for_users (authorization_failed event_id booking_id) = false
is_for_users (captured event_id booking_id) = false
is_for_users (capture_failed event_id booking_id) = false
is_for_users _ = true

pub data Reach : System → Type 0 where
  start : Reach (record { booking = empty_db; payment = no_payments })
  user :
      (op : Operation) (b : Booking) {s : System} {db' : BookingDb}
      → Reach s
      → is_for_users op ≡ true
      → run op s.booking ≡ (ok b, db')
      → Reach (record s { booking = db' })
  keys :
      (rows : List (IdempotencyRow BookingResponse)) {s : System}
      → Reach s
      → Reach (record s { booking = record s.booking { keys = rows } })
  to_payment :
      (stripe : StripeClient) (fresh : BookingMessage → Ids) (row : OutboxRow BookingMessage)
      (before after : List (OutboxRow BookingMessage)) {s : System} {db' : PaymentDb}
      → Reach s
      → s.booking.outbox ≡ before ++ row ∷ after
      → process PaymentTables.inbox_table
          (booking_command_handlers stripe fresh)
          (envelope_of row)
          s.payment
        ≡ (ok tt, db')
      → Reach (record s { payment = db' })
  to_booking :
      (fresh : PaymentMessage → ℕ) (row : OutboxRow PaymentMessage)
      (before after : List (OutboxRow PaymentMessage)) {s : System} {db' : BookingDb}
      → Reach s
      → s.payment.outbox ≡ before ++ row ∷ after
      → process BookingTables.inbox_table (payment_event_handlers fresh) (envelope_of row) s.booking
        ≡ (ok tt, db')
      → Reach (record s { booking = db' })
  webhook :
      (construct_event : String → String → Option ℕ) (payload signature : String) {s : System}
      {db' : PaymentDb}
      → Reach s
      → stripe_webhook construct_event payload signature s.payment ≡ (ok tt, db')
      → Reach (record s { payment = db' })

-- The operation that a payment message makes the booking service do.
abbrev pub reaction : (PaymentMessage → ℕ) → PaymentMessage → Operation
reaction fresh (payment_authorized i) = authorized (fresh (payment_authorized i)) i
reaction fresh (payment_authorization_failed i) =
    authorization_failed (fresh (payment_authorization_failed i)) i
reaction fresh (payment_captured i) = captured (fresh (payment_captured i)) i
reaction fresh (payment_capture_failed i) = capture_failed (fresh (payment_capture_failed i)) i

pub reacted :
    (fresh : PaymentMessage → ℕ) (m : PaymentMessage) (db db' : BookingDb)
    → dispatch BookingTables.inbox_table (payment_event_handlers fresh) m db ≡ (ok tt, db')
    → (b : Booking) × (run (reaction fresh m) db ≡ (ok b, db'))
unfolding payment_event_handlers dispatch run
reacted fresh (payment_authorized i) db db' h =
    handled (apply_payment_authorized (fresh (payment_authorized i)) i) db db' h
reacted fresh (payment_authorization_failed i) db db' h =
    handled (apply_payment_authorization_failed (fresh (payment_authorization_failed i)) i) db db' h
reacted fresh (payment_captured i) db db' h =
    handled (apply_payment_captured (fresh (payment_captured i)) i) db db' h
reacted fresh (payment_capture_failed i) db db' h =
    handled (apply_payment_capture_failed (fresh (payment_capture_failed i)) i) db db' h

claimed-Reach :
    (event_id : ℕ) {db : BookingDb}
    → BookingMachine.Reach db
    → BookingMachine.Reach (record db { inbox = event_id ∷ db.inbox })
claimed-Reach event_id {db} r = BookingMachine.bookkeeping (event_id ∷ db.inbox) db.keys r

-- Each service's part of the system is a database that the service can have by itself.
pub booking-Reach : {s : System} → Reach s → BookingMachine.Reach s.booking
booking-Reach start = BookingMachine.start
booking-Reach (user op b r for_users h) = BookingMachine.commit op b (booking-Reach r) h
booking-Reach (keys rows {s = s} r) =
    BookingMachine.bookkeeping s.booking.inbox rows (booking-Reach r)
booking-Reach (to_payment stripe fresh row before after r sent h) = booking-Reach r
booking-Reach (to_booking fresh row before after {s = s} {db' = db'} r sent h) =
    elim (process-ok BookingTables.inbox_table (payment_event_handlers fresh) (envelope_of row)
      s.booking db' h) [
        | inl same ↦ subst BookingMachine.Reach (sym same) (booking-Reach r)
        | inr done ↦
            let (b, ran) = reacted fresh row.message _ db' done in
            BookingMachine.commit (reaction fresh row.message) b
              (claimed-Reach row.id (booking-Reach r)) ran
      ]
booking-Reach (webhook construct_event payload signature r h) = booking-Reach r

pub payment-Reach : {s : System} → Reach s → PaymentMachine.Reach s.payment
payment-Reach start = PaymentMachine.start
payment-Reach (user op b r for_users h) = payment-Reach r
payment-Reach (keys rows r) = payment-Reach r
payment-Reach (to_payment stripe fresh row before after {s = s} {db' = db'} r sent h) =
    let handlers = booking_command_handlers stripe fresh in
    let claimed = PaymentMachine.bookkeeping (row.id ∷ s.payment.inbox) (payment-Reach r) in
    elim (process-ok PaymentTables.inbox_table handlers (envelope_of row) s.payment db' h) [
      | inl same ↦ subst PaymentMachine.Reach (sym same) (payment-Reach r)
      | inr done ↦ elim (dispatch-ok PaymentTables.inbox_table handlers row.message _ db' done) [
        | inl (absent, same) ↦ subst PaymentMachine.Reach (sym same) claimed
        | inr (handler, present, ran) ↦
            PaymentMachine.commit stripe fresh row.message handler claimed present ran
      ]
    ]
payment-Reach (to_booking fresh row before after r sent h) = payment-Reach r
payment-Reach (webhook construct_event payload signature {s = s} {db' = db'} r h) =
    let (ids, same) = webhook-ok construct_event payload signature s.payment db' h in
    subst PaymentMachine.Reach (sym same) (PaymentMachine.bookkeeping ids (payment-Reach r))
