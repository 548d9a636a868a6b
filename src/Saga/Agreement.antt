-- ===== src/Saga/Agreement.antt =====
-- What the two services say of a booking agrees, however late and however often messages are delivered.
use car_flow_mvp.Base.{
  ℕ, ◌≡◌, refl, sym, ap, subst, ◌∙◌, true, Option, some, List, ◌∷◌, inl, inr, ◌⊎◌, All, All-middle,
  arith,
}
use car_flow_mvp.Base.Table.{find}
use car_flow_mvp.Shared.Outbox.{envelope_of}
use car_flow_mvp.Shared.Consumer.ExactlyOnce.{process-ok}
use car_flow_mvp.Booking.Domain.{BookingStatus, confirmed, active, completed, cancelled}
use car_flow_mvp.Booking.Model as BookingTables
use car_flow_mvp.Booking.Model.{Booking}
use car_flow_mvp.Booking.Repository.{booking_key}
use car_flow_mvp.Booking.Consumers.{payment_event_handlers}
use car_flow_mvp.Booking.Machine.{
  Operation, request, accept, reject, handover, take_back, authorized, authorization_failed,
  captured, capture_failed,
}
use car_flow_mvp.Payment.Model as PaymentTables
use car_flow_mvp.Payment.Model.{
  PaymentStatus, Payment, PaymentMessage, payment_authorized, payment_authorization_failed,
  payment_captured, payment_capture_failed, Direction, rental, booking_of,
}
use car_flow_mvp.Payment.Service.{booking_command_handlers}
use car_flow_mvp.Payment.Routes.{webhook-ok}
use car_flow_mvp.Payment.Ledger.{entries, charges}
use car_flow_mvp.Payment.Machine.{charged_at_most_once}
use car_flow_mvp.Saga.Statuses.{
  status_in, payment_status, was_held, was_captured, was_refused, backed, subject, told_truly,
  backed-follows,
}
use car_flow_mvp.Saga.Payments.{IsTrue, IsTruthful, Progress, stays, dispatch-Progress}
use car_flow_mvp.Saga.Bookings.{IsBacked, is_due, run-IsBacked}
use car_flow_mvp.Saga.Machine.{
  System, is_for_users, Reach, start, user, keys, to_payment, to_booking, webhook, reaction,
  reacted, payment-Reach,
}

abbrev statuses : System → ℕ → Option PaymentStatus
statuses s i = payment_status i s.payment

pub record IsAgreed (s : System) : Type 0 where
  pub is_backed : IsBacked (statuses s) s.booking
  pub truthful : IsTruthful s.payment

users_due :
    (st : ℕ → Option PaymentStatus) (op : Operation) → is_for_users op ≡ true → is_due st op ≡ true
users_due st (request r i e n v a z) h = refl
users_due st (accept e i n) h = refl
users_due st (reject e i n) h = refl
users_due st (handover i n o f p) h = refl
users_due st (take_back e i n o f p) h = refl
users_due st (authorized e i) h = cc
users_due st (authorization_failed e i) h = cc
users_due st (captured e i) h = cc
users_due st (capture_failed e i) h = cc

messages_due :
    (st : ℕ → Option PaymentStatus) (fresh : PaymentMessage → ℕ) (m : PaymentMessage)
    → told_truly m (st (subject m)) ≡ true
    → is_due st (reaction fresh m) ≡ true
messages_due st fresh (payment_authorized i) h = h
messages_due st fresh (payment_authorization_failed i) h = h
messages_due st fresh (payment_captured i) h = h
messages_due st fresh (payment_capture_failed i) h = refl

progressed :
    (s : System) (db' : PaymentTables.PaymentDb)
    → Progress s.payment db'
    → IsAgreed s
    → IsAgreed (record s { payment = db' })
progressed s db' p a = record {
  is_backed = λ i b found.
      backed-follows b.status (payment_status i s.payment) (payment_status i db') (p.forward i)
        (a.is_backed i b found);
  truthful = p.truthful a.truthful;
}

claimed-Progress :
    (event_id : ℕ) (db db' : PaymentTables.PaymentDb)
    → Progress (record db { inbox = event_id ∷ db.inbox }) db'
    → Progress db db'
claimed-Progress event_id db db' p = record { forward = p.forward; truthful = p.truthful }

webhook-Progress :
    (ids : List ℕ) (db : PaymentTables.PaymentDb) → Progress db (record db { inbox = ids })
webhook-Progress ids db = record {
  forward = (stays {db = db} {db' = db} refl).forward;
  truthful = λ t. t;
}

Reach-IsAgreed : {s : System} → Reach s → IsAgreed s
unfolding find
Reach-IsAgreed start = record { is_backed = λ i b found. cc; truthful = tt }
Reach-IsAgreed (user op b {s = s} {db' = db'} r for_users h) =
    let a = Reach-IsAgreed r in
    record {
      is_backed =
          run-IsBacked (statuses s) op b s.booking db' h (users_due (statuses s) op for_users)
            a.is_backed;
      truthful = a.truthful;
    }
Reach-IsAgreed (keys rows r) =
    let a = Reach-IsAgreed r in record { is_backed = a.is_backed; truthful = a.truthful }
Reach-IsAgreed (to_payment stripe fresh row before after {s = s} {db' = db'} r sent h) =
    elim (process-ok PaymentTables.inbox_table (booking_command_handlers stripe fresh)
      (envelope_of row) s.payment db' h) [
        | inl same ↦ progressed s db' (stays same) (Reach-IsAgreed r)
        | inr done ↦
            progressed s db'
              (claimed-Progress row.id s.payment db'
                (dispatch-Progress stripe fresh row.message _ db' done))
              (Reach-IsAgreed r)
      ]
Reach-IsAgreed (to_booking fresh row before after {s = s} {db' = db'} r sent h) =
    let a = Reach-IsAgreed r in
    let true_row : IsTrue s.payment row =
      All-middle (IsTrue s.payment) before row after
        (subst (All (IsTrue s.payment)) sent a.truthful) in
    elim (process-ok BookingTables.inbox_table (payment_event_handlers fresh) (envelope_of row)
      s.booking db' h) [
        | inl same ↦ record {
          is_backed = subst (IsBacked (statuses s)) (sym same) a.is_backed;
          truthful = a.truthful;
        }
        | inr done ↦
            let (b, ran) = reacted fresh row.message _ db' done in
            record {
              is_backed =
                  run-IsBacked (statuses s) (reaction fresh row.message) b _ db' ran
                    (messages_due (statuses s) fresh row.message true_row) a.is_backed;
              truthful = a.truthful;
            }
      ]
Reach-IsAgreed (webhook construct_event payload signature {s = s} {db' = db'} r h) =
    let (ids, same) = webhook-ok construct_event payload signature s.payment db' h in
    progressed s db' (subst (Progress s.payment) (sym same) (webhook-Progress ids s.payment))
      (Reach-IsAgreed r)

charges_captured : (o : Option Payment) → was_captured (status_in o) ≡ true → charges rental o ≡ 1
charges_captured o h = ground arith

charges_refused : (o : Option Payment) → was_refused (status_in o) ≡ true → charges rental o ≡ 0
charges_refused o h = ground arith

module _ (i : ℕ) (b : Booking) {s : System} (r : Reach s)
    (found : find booking_key i s.booking.bookings ≡ some b) where
  status_backed :
      (st : BookingStatus) → b.status ≡ st → backed st (payment_status i s.payment) ≡ true
  status_backed st e =
      ap (λ x. backed x (payment_status i s.payment)) (sym e)
      ∙ (Reach-IsAgreed r).is_backed i b found

  counted :
      (d : Direction)
      → entries i d rental s.payment.ledger ≡ charges rental (find booking_of i s.payment.payments)
  counted d = (charged_at_most_once i d rental (payment-Reach r)).0

  -- In every state that the two services can reach together, however late, often and out of order
  -- messages are delivered, the rental of a completed booking was charged exactly once: the ledger has
  -- one entry of it in each direction.
  pub completed_is_paid :
      (direction : Direction)
      → b.status ≡ completed
      → entries i direction rental s.payment.ledger ≡ 1
  completed_is_paid d e = counted d ∙ charges_captured _ (status_backed completed e)

  -- In every such state the rental of a cancelled booking was never charged.
  pub cancelled_not_charged :
      (direction : Direction)
      → b.status ≡ cancelled
      → entries i direction rental s.payment.ledger ≡ 0
  cancelled_not_charged d e = counted d ∙ charges_refused _ (status_backed cancelled e)

  -- In every such state a booking that is confirmed, or whose car is with the renter, has a payment
  -- whose hold Stripe granted.
  pub underway_is_held :
      (b.status ≡ confirmed) ⊎ (b.status ≡ active) → was_held (payment_status i s.payment) ≡ true
  underway_is_held (inl e) = status_backed confirmed e
  underway_is_held (inr e) = status_backed active e
