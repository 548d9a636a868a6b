-- ===== src/Saga/Payments.antt =====
-- A command of the payment service never takes back what the service has told.
use car_flow_mvp.Base.{
  ℕ, ◌≡◌, refl, sym, ap, subst, ◌∙◌, true, false, none, some, List, [], ◌∷◌, ◌++◌, ◌==◌, ==→eq,
  ==_refl, All, All-map, All-append, Bool-cases, inl, inr, ⊤, arith,
}
use car_flow_mvp.Base.Int.{ℤ}
use car_flow_mvp.Base.Result.{Result, ok}
use car_flow_mvp.Base.Table.{find, replace, find-replace, find-append_one, find-key}
use car_flow_mvp.Shared.Outbox.{OutboxRow}
use car_flow_mvp.Shared.Consumer.{dispatch}
use car_flow_mvp.Booking.Model.{
  BookingMessage, authorize_payment_requested, capture_payment_requested, rejected_message,
  confirmed_message, cancelled_message, completed_message, capture_failed_message,
}
use car_flow_mvp.Payment.Model.{
  authorized, authorization_failed, captured, capture_failed, Payment, PaymentMessage,
  payment_authorized, payment_authorization_failed, payment_captured, payment_capture_failed,
  PaymentDb, PaymentError, booking_of, inbox_table,
}
use car_flow_mvp.Payment.Service.{StripeClient, Ids, status_is_authorized, booking_command_handlers}
use car_flow_mvp.Payment.Service.Capturing.{
  CaptureEffect, ignored, failed, settled, settled_with_overage, capture-CaptureEffect,
}
use car_flow_mvp.Payment.Service.Authorizing.{
  AuthorizeEffect, repeated, opened, new_payment, authorize-AuthorizeEffect,
}
use car_flow_mvp.Saga.Statuses.{
  status_in, payment_status, was_held, subject, told_truly, follows, follows_refl,
  told_truly-follows,
}

-- Every message that the service has sent is true of its payments.
abbrev pub IsTrue : PaymentDb → OutboxRow PaymentMessage → Type 0
IsTrue db row = told_truly row.message (payment_status (subject row.message) db) ≡ true

abbrev pub IsTruthful : PaymentDb → Type 0
IsTruthful db = All (IsTrue db) db.outbox

-- From one database to another no payment goes back, and the truth is told.
pub record Progress (db db' : PaymentDb) : Type 0 where
  pub forward : (i : ℕ) → follows (payment_status i db) (payment_status i db') ≡ true
  pub truthful : IsTruthful db → IsTruthful db'

pub stays : {db db' : PaymentDb} → db' ≡ db → Progress db db'
stays {db} {db'} e =
    subst (Progress db) (sym e)
      (record { forward = λ i. follows_refl (payment_status i db); truthful = λ t. t })

module _ (db : PaymentDb) (rows : List Payment) (row : OutboxRow PaymentMessage) where
  abbrev Sends : PaymentDb → Type 0
  Sends db' = (db'.payments ≡ rows) × (db'.outbox ≡ db.outbox ++ row ∷ [])

  -- A payment's row is written, and the message about it is sent.
  written :
      (db' : PaymentDb)
      → Sends db'
      → ((i : ℕ) → follows (payment_status i db) (status_in (find booking_of i rows)) ≡ true)
      → told_truly row.message (status_in (find booking_of (subject row.message) rows)) ≡ true
      → Progress db db'
  written db' (same, sent) forward now =
      let status : (i : ℕ) → payment_status i db' ≡ status_in (find booking_of i rows) =
        λ i. ap (λ ps. status_in (find booking_of i ps)) same in
      let forward' : (i : ℕ) → follows (payment_status i db) (payment_status i db') ≡ true =
        λ i. ap (follows (payment_status i db)) (status i) ∙ forward i in
      record {
        forward = forward';
        truthful = λ t. subst (All (IsTrue db')) (sym sent) (
            All-append (IsTrue db') db.outbox (row ∷ [])
              (All-map (IsTrue db) (IsTrue db') db.outbox
                (λ old h. told_truly-follows old.message _ _ (forward' (subject old.message)) h) t)
              (ap (told_truly row.message) (status (subject row.message)) ∙ now, tt));
      }

status-replace :
    (rows : List Payment) (i booking_id : ℕ) (p w : Payment)
    → find booking_of booking_id rows ≡ some p
    → status_is_authorized p.status ≡ true
    → w.booking_id ≡ booking_id
    → was_held (some w.status) ≡ true
    → follows
        (status_in (find booking_of i rows))
        (status_in (find booking_of i (replace booking_of w rows)))
      ≡ true
status-replace rows i booking_id p w found held key fits = elim (Bool-cases (booking_id == i)) [
  | inl here ↦
      let same = ==→eq booking_id i here in
      let here' : find booking_of i rows ≡ some p =
        ap (λ k. find booking_of k rows) (sym same) ∙ found in
      let own : (w.booking_id == i) ≡ true = ap (λ k. k == i) key ∙ here in
      ground (arith, find-replace booking_of i w rows)
  | inr other ↦
      let own : (w.booking_id == i) ≡ false = ap (λ k. k == i) key ∙ other in
      ground
        (arith, find-replace booking_of i w rows, follows_refl (status_in (find booking_of i rows)))
]

status_replaced :
    (rows : List Payment) (booking_id : ℕ) (p w : Payment)
    → find booking_of booking_id rows ≡ some p
    → w.booking_id ≡ booking_id
    → status_in (find booking_of booking_id (replace booking_of w rows)) ≡ some w.status
status_replaced rows booking_id p w found key =
    let own : (w.booking_id == booking_id) ≡ true =
      ap (λ k. k == booking_id) key ∙ ==_refl booking_id in
    ground (arith, find-replace booking_of booking_id w rows)

status-append :
    (rows : List Payment) (i : ℕ) (p : Payment)
    → follows (status_in (find booking_of i rows)) (status_in (find booking_of i (rows ++ p ∷ [])))
      ≡ true
status-append rows i p =
    ground (
      arith,
      find-append_one booking_of i p rows,
      follows_refl (status_in (find booking_of i rows)),
    )

status_appended :
    (rows : List Payment) (i : ℕ) (p : Payment)
    → find booking_of i rows ≡ none
    → p.booking_id ≡ i
    → status_in (find booking_of i (rows ++ p ∷ [])) ≡ some p.status
status_appended rows i p missing key =
    let own : (p.booking_id == i) ≡ true = ap (λ k. k == i) key ∙ ==_refl i in
    ground (arith, find-append_one booking_of i p rows)

idle :
    {db db' : PaymentDb}
    → ◌≡◌ {A = Result PaymentError ⊤ × PaymentDb} (ok tt, db) (ok tt, db')
    → Progress db db'
idle h = stays (ap (λ (o : Result PaymentError ⊤ × PaymentDb). o.1) (sym h))

capture-Progress :
    {s : StripeClient} {ids : Ids} {b n : ℕ} {hold overage : ℤ} {db db' : PaymentDb}
    → CaptureEffect s ids b n hold overage db db'
    → Progress db db'
capture-Progress (ignored _ e) = stays e
capture-Progress {b = b} {db = db} {db' = db'} (failed p found held e) =
    let w : Payment = record p { status = capture_failed } in
    let key = find-key booking_of b p db.payments found in
    written db (replace booking_of w db.payments) _ db'
      (ap PaymentDb.payments e, ap PaymentDb.outbox e)
      (λ i. status-replace db.payments i b p w found held key refl)
      (ap (told_truly (payment_capture_failed b)) (status_replaced db.payments b p w found key))
capture-Progress {b = b} {db = db} {db' = db'} (settled p found held _ e) =
    let w : Payment = record p { status = captured } in
    let key = find-key booking_of b p db.payments found in
    written db (replace booking_of w db.payments) _ db'
      (ap PaymentDb.payments e, ap PaymentDb.outbox e)
      (λ i. status-replace db.payments i b p w found held key refl)
      (ap (told_truly (payment_captured b)) (status_replaced db.payments b p w found key))
capture-Progress {b = b} {overage = o} {db = db} {db' = db'}
      (settled_with_overage p intent found held _ _ e) =
    let w : Payment = record p {
      status = captured;
      stripe_overage_intent_id = some intent;
      overage_cents = o;
    } in
    let key = find-key booking_of b p db.payments found in
    written db (replace booking_of w db.payments) _ db'
      (ap PaymentDb.payments e, ap PaymentDb.outbox e)
      (λ i. status-replace db.payments i b p w found held key refl)
      (ap (told_truly (payment_captured b)) (status_replaced db.payments b p w found key))

authorize-Progress :
    {s : StripeClient} {ids : Ids} {b r : ℕ} {a : ℤ} {db db' : PaymentDb}
    → AuthorizeEffect s ids b r a db db'
    → Progress db db'
authorize-Progress (repeated e) = stays e
authorize-Progress {s = s} {ids = ids} {b = b} {r = r} {a = a} {db = db} {db' = db'}
      (opened none missing e) =
    let p = new_payment s ids b r a authorization_failed none in
    written db (db.payments ++ p ∷ []) _ db' (ap PaymentDb.payments e, ap PaymentDb.outbox e)
      (λ i. status-append db.payments i p)
      (ap (told_truly (payment_authorization_failed b))
        (status_appended db.payments b p missing refl))
authorize-Progress {s = s} {ids = ids} {b = b} {r = r} {a = a} {db = db} {db' = db'}
      (opened (some intent) missing e) =
    let p = new_payment s ids b r a authorized (some intent) in
    written db (db.payments ++ p ∷ []) _ db' (ap PaymentDb.payments e, ap PaymentDb.outbox e)
      (λ i. status-append db.payments i p)
      (ap (told_truly (payment_authorized b)) (status_appended db.payments b p missing refl))

-- Whatever message the payment service handles, it makes progress.
pub dispatch-Progress :
    (s : StripeClient) (fresh : BookingMessage → Ids) (m : BookingMessage) (db db' : PaymentDb)
    → dispatch inbox_table (booking_command_handlers s fresh) m db ≡ (ok tt, db')
    → Progress db db'
unfolding dispatch booking_command_handlers
dispatch-Progress s fresh (authorize_payment_requested b r a) db db' h =
    authorize-Progress
      (authorize-AuthorizeEffect s (fresh (authorize_payment_requested b r a)) b r a db db' h)
dispatch-Progress s fresh (capture_payment_requested b n a o) db db' h =
    capture-Progress
      (capture-CaptureEffect s (fresh (capture_payment_requested b n a o)) b n a o db db' h)
dispatch-Progress s fresh (rejected_message _) db db' h = idle h
dispatch-Progress s fresh (confirmed_message _) db db' h = idle h
dispatch-Progress s fresh (cancelled_message _) db db' h = idle h
dispatch-Progress s fresh (completed_message _) db db' h = idle h
dispatch-Progress s fresh (capture_failed_message _) db db' h = idle h
