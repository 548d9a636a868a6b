-- ===== src/Booking/Consumers.antt =====
-- services/booking/consumers.py: the handlers of the payment service's messages, and what a broker that
-- delivers at least once does to both services.
use car_flow_mvp.Base.{ℕ, ◌≡◌, false, sym, ap, ◌∙◌, some, List, ◌∷◌, ◌++◌, ⊤, length}
use car_flow_mvp.Base.Result.{ok, err}
use car_flow_mvp.Base.Exec.{pure, ◌>>=◌, bind-ok, pure-ok, continue}
use car_flow_mvp.Shared.Outbox.{Envelope}
use car_flow_mvp.Shared.Consumer.{contains, claim_event, process, Handlers, dispatch, run_consumer}
use car_flow_mvp.Shared.Consumer.ExactlyOnce.{LeavesInbox}
use car_flow_mvp.Shared.Consumer.Redelivery.{redelivery_harmless, poison_blocks}
use car_flow_mvp.Booking.Model.{Booking, BookingDb, inbox_table}
use car_flow_mvp.Base.Table.{find}
use car_flow_mvp.Booking.Domain.{requested, same_status, unexpected_status}
use car_flow_mvp.Booking.Domain
use car_flow_mvp.Booking.Repository.{BookingError, domain_error, Action, booking_key, get_by_id}
use car_flow_mvp.Booking.Service.{
  apply_payment_authorized, apply_payment_authorization_failed, apply_payment_captured,
  apply_payment_capture_failed,
}
use car_flow_mvp.Booking.Settle.Operations.{
  authorized-Settled, authorization_failed-Settled, captured-Settled, capture_failed-Settled,
}
use car_flow_mvp.Payment.Model.{
  PaymentMessage, payment_authorized, payment_authorization_failed, payment_captured,
  payment_capture_failed,
}

-- `_handle` drops the booking that the operation returns.
abbrev pub handle : Action Booking → Action ⊤
handle operation = do booking ← operation; pure tt

-- `PAYMENT_EVENT_HANDLERS`; `fresh` gives the value of `uuid4` for the message that is sent on.
unfoldable pub payment_event_handlers :
    (PaymentMessage → ℕ) → Handlers BookingDb BookingError PaymentMessage
payment_event_handlers fresh (payment_authorized booking_id) =
    some (handle (apply_payment_authorized (fresh (payment_authorized booking_id)) booking_id))
payment_event_handlers fresh (payment_authorization_failed booking_id) = some (
    handle (
      apply_payment_authorization_failed (fresh (payment_authorization_failed booking_id))
        booking_id))
payment_event_handlers fresh (payment_captured booking_id) =
    some (handle (apply_payment_captured (fresh (payment_captured booking_id)) booking_id))
payment_event_handlers fresh (payment_capture_failed booking_id) =
    some
      (handle (apply_payment_capture_failed (fresh (payment_capture_failed booking_id)) booking_id))

-- A handler returns where its operation does.
pub handled :
    (operation : Action Booking) (db db' : BookingDb)
    → handle operation db ≡ (ok tt, db')
    → (b : Booking) × (operation db ≡ (ok b, db'))
handled operation db db' h =
    let (b, d, first, rest) = bind-ok operation (λ _. pure tt) db db' h in
    let (_, same) = pure-ok tt d db' rest in
    (b, first ∙ ap (λ (x : BookingDb). (ok b, x)) (sym same))

-- The handlers of payment events leave the inbox to the consumer.
pub payment_events-LeavesInbox :
    (fresh : PaymentMessage → ℕ) → LeavesInbox inbox_table (payment_event_handlers fresh)
unfolding payment_event_handlers dispatch
payment_events-LeavesInbox fresh (payment_authorized i) s s' h =
    let e = fresh (payment_authorized i) in
    let (b, done) = handled (apply_payment_authorized e i) s s' h in
    (authorized-Settled e i s s' b done).3.inbox
payment_events-LeavesInbox fresh (payment_authorization_failed i) s s' h =
    let e = fresh (payment_authorization_failed i) in
    let (b, done) = handled (apply_payment_authorization_failed e i) s s' h in
    (authorization_failed-Settled e i s s' b done).3.inbox
payment_events-LeavesInbox fresh (payment_captured i) s s' h =
    let e = fresh (payment_captured i) in
    let (b, done) = handled (apply_payment_captured e i) s s' h in
    (captured-Settled e i s s' b done).3.inbox
payment_events-LeavesInbox fresh (payment_capture_failed i) s s' h =
    let e = fresh (payment_capture_failed i) in
    let (b, done) = handled (apply_payment_capture_failed e i) s s' h in
    (capture_failed-Settled e i s s' b done).3.inbox

-- The booking service after a restart: once a run of payment events has been handled, delivering it
-- again in front of other events leaves the database that the other events alone leave.
pub payment_events_redelivered :
    (fresh : PaymentMessage → ℕ) (xs ys : List (Envelope PaymentMessage)) (db : BookingDb)
    → (run_consumer inbox_table (payment_event_handlers fresh) xs db).0 ≡ length xs
    → let db' = (run_consumer inbox_table (payment_event_handlers fresh) xs db).1 in
      (run_consumer inbox_table (payment_event_handlers fresh) (xs ++ ys) db').1
      ≡ (run_consumer inbox_table (payment_event_handlers fresh) ys db').1
payment_events_redelivered fresh xs ys db h =
    redelivery_harmless inbox_table (payment_event_handlers fresh)
      (payment_events-LeavesInbox fresh) xs ys db h

refused :
    (fresh : PaymentMessage → ℕ) (i : ℕ) (b : Booking) (ids : List ℕ) (db : BookingDb)
    → find booking_key i db.bookings ≡ some b
    → same_status b.status requested ≡ false
    → dispatch inbox_table
        (payment_event_handlers fresh)
        (payment_authorized i)
        (record db { inbox = ids })
      ≡ (err (domain_error (unexpected_status b.status requested)), record db { inbox = ids })
unfolding dispatch payment_event_handlers apply_payment_authorized get_by_id
    Domain.confirm_after_payment_authorized Domain.require_status
refused fresh i b ids db found other = rw (found, other, continue)

-- The message that a payment was authorized, for a booking that is no longer requested, stops the
-- consumer: nothing is committed, the database is as it was, and no record behind it is handled, on
-- every attempt.
pub late_authorization_blocks :
    (fresh : PaymentMessage → ℕ) (event_id i : ℕ) (b : Booking)
    (xs : List (Envelope PaymentMessage)) (db : BookingDb)
    → contains event_id db.inbox ≡ false
    → find booking_key i db.bookings ≡ some b
    → same_status b.status requested ≡ false
    → run_consumer inbox_table
        (payment_event_handlers fresh)
        (record { event_id = event_id; message = payment_authorized i } ∷ xs)
        db
      ≡ (0, db)
unfolding process claim_event
late_authorization_blocks fresh event_id i b xs db new found other =
    poison_blocks inbox_table (payment_event_handlers fresh)
      (record { event_id = event_id; message = payment_authorized i }) xs db
      {x = domain_error (unexpected_status b.status requested)}
      (rw (new, claim_event, continue, refused fresh i b (event_id ∷ db.inbox) db found other))
