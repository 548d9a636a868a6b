-- ===== src/Payment/Service/Capturing.antt =====
-- What `handle_capture_payment_requested` of services/payment/service.py does to the database, on every
-- branch that returns.
use mathlib.Core.List.{append_assoc}
use car_flow_mvp.Base.{
  ℕ, ◌≡◌, refl, sym, ap, ◌∙◌, Bool, true, false, Option, none, some, String, List, [], ◌∷◌, ◌++◌, ⊤,
  Bool-cases, Option-cases, inl, inr, arith,
}
use car_flow_mvp.Base.Int.{ℤ, pos, ◌<ℤ◌, ltb_ℤ, leb_ℤ}
use car_flow_mvp.Base.Result.{Result, ok, err}
use car_flow_mvp.Base.Table.{find, replace, replace-replace}
use car_flow_mvp.Shared.Outbox.{OutboxRow, write_outbox_event}
use car_flow_mvp.Payment.Model.{
  captured, capture_failed, Payment, renter_account, host_account, debit, credit, Reason, rental,
  mileage_overage, LedgerEntry, PaymentMessage, payment_captured, payment_capture_failed, PaymentDb,
  PaymentError, integrity_error, booking_of, get_by_booking_id, save, write_ledger_pair,
}
use car_flow_mvp.Payment.Service.{
  StripeClient, Ids, status_is_authorized, handle_capture_payment_requested,
}

-- The two entries of one movement of money.
abbrev pub ledger_pair : Payment → (booking_id host_id : ℕ) → ℤ → Reason → List LedgerEntry
ledger_pair payment booking_id host_id amount_cents reason =
    record {
      payment_id = payment.id;
      booking_id = booking_id;
      account = renter_account payment.renter_id;
      direction = debit;
      amount_cents = amount_cents;
      reason = reason;
    }
    ∷ record {
      payment_id = payment.id;
      booking_id = booking_id;
      account = host_account host_id;
      direction = credit;
      amount_cents = amount_cents;
      reason = reason;
    }
    ∷ []

-- Whether a booking has a payment that can be captured.
abbrev pub is_open : Option Payment → Bool
is_open none = false
is_open (some payment) = status_is_authorized payment.status

module _ (stripe : StripeClient) (ids : Ids) (booking_id host_id : ℕ) (hold overage : ℤ) where
  abbrev sent : PaymentMessage → List (OutboxRow PaymentMessage) → List (OutboxRow PaymentMessage)
  sent message rows = write_outbox_event ids.event_id "payment" booking_id message rows

  abbrev pub after_failed : Payment → PaymentDb → PaymentDb
  after_failed p db = record db {
    payments = replace booking_of (record p { status = capture_failed }) db.payments;
    outbox = sent (payment_capture_failed booking_id) db.outbox;
  }

  abbrev pub after_settled : Payment → PaymentDb → PaymentDb
  after_settled p db = record db {
    payments = replace booking_of (record p { status = captured }) db.payments;
    ledger = db.ledger ++ ledger_pair p booking_id host_id hold rental;
    outbox = sent (payment_captured booking_id) db.outbox;
  }

  abbrev overage_row : Payment → String → Payment
  overage_row p intent = record p {
    stripe_overage_intent_id = some intent;
    overage_cents = overage;
  }

  abbrev pub after_overage : Payment → String → PaymentDb → PaymentDb
  after_overage p intent db = record db {
    payments = replace booking_of (record (overage_row p intent) { status = captured }) db.payments;
    ledger =
        db.ledger
        ++ (ledger_pair p booking_id host_id hold rental
            ++ ledger_pair p booking_id host_id overage mileage_overage);
    outbox = sent (payment_captured booking_id) db.outbox;
  }

  -- A capture command is ignored; or the hold could not be captured; or the hold alone was captured;
  -- or the hold, and the overage by a second charge.
  pub data CaptureEffect (db db' : PaymentDb) : Type 0 where
    ignored :
        is_open (find booking_of booking_id db.payments) ≡ false → db' ≡ db → CaptureEffect db db'
    failed :
        (p : Payment)
        → find booking_of booking_id db.payments ≡ some p
        → status_is_authorized p.status ≡ true
        → db' ≡ after_failed p db
        → CaptureEffect db db'
    settled :
        (p : Payment)
        → find booking_of booking_id db.payments ≡ some p
        → status_is_authorized p.status ≡ true
        → pos 0 <ℤ hold
        → db' ≡ after_settled p db
        → CaptureEffect db db'
    settled_with_overage :
        (p : Payment) (intent : String)
        → find booking_of booking_id db.payments ≡ some p
        → status_is_authorized p.status ≡ true
        → pos 0 <ℤ hold
        → pos 0 <ℤ overage
        → db' ≡ after_overage p intent db
        → CaptureEffect db db'

  abbrev handler : PaymentDb → Result PaymentError ⊤ × PaymentDb
  handler = handle_capture_payment_requested stripe ids booking_id host_id hold overage

  result_is : (db db' x : PaymentDb) → handler db ≡ (ok tt, x) → handler db ≡ (ok tt, db') → db' ≡ x
  result_is db db' x e h = ap (λ (o : Result PaymentError ⊤ × PaymentDb). o.1) (sym h ∙ e)

  is_positive : (a : ℤ) → ltb_ℤ (pos 0) a ≡ true → (pos 0 <ℤ a) × (leb_ℤ a (pos 0) ≡ false)
  is_positive a e = ground arith

  positive : (a : ℤ) → leb_ℤ a (pos 0) ≡ false → pos 0 <ℤ a
  positive a e = ground arith

  module _ (db db' : PaymentDb) (h : handler db ≡ (ok tt, db')) (p : Payment)
      (found : find booking_of booking_id db.payments ≡ some p) where
    not_held : status_is_authorized p.status ≡ false → CaptureEffect db db'
    unfolding handle_capture_payment_requested get_by_booking_id
    not_held e =
        let step : handler db ≡ (ok tt, db) = rw (found, e) in
        ignored (ap is_open found ∙ e) (result_is db db' db step h)

    module _ (held : status_is_authorized p.status ≡ true) where
      not_captured :
          stripe.capture p.stripe_payment_intent_id hold booking_id ≡ false → CaptureEffect db db'
      unfolding handle_capture_payment_requested get_by_booking_id save
      not_captured went =
          let step : handler db ≡ (ok tt, after_failed p db) = rw (found, held, went) in
          failed p found held (result_is db db' (after_failed p db) step h)

      module _ (went : stripe.capture p.stripe_payment_intent_id hold booking_id ≡ true) where
        refused : leb_ℤ hold (pos 0) ≡ true → CaptureEffect db db'
        unfolding handle_capture_payment_requested get_by_booking_id save write_ledger_pair
        refused amount =
            let step : handler db ≡ (err integrity_error, db) =
              rw (found, held, went, write_ledger_pair, amount) in
            let clash : ◌≡◌ {A = Result PaymentError ⊤} (err integrity_error) (ok tt) =
              ap (λ (o : Result PaymentError ⊤ × PaymentDb). o.0) (sym step ∙ h) in
            cc

        module _ (amount : leb_ℤ hold (pos 0) ≡ false) where
          without_overage : ltb_ℤ (pos 0) overage ≡ false → CaptureEffect db db'
          unfolding handle_capture_payment_requested get_by_booking_id save write_ledger_pair
          without_overage none_due =
              let step : handler db ≡ (ok tt, after_settled p db) =
                rw (found, held, went, write_ledger_pair, amount, none_due) in
              settled p found held (positive hold amount)
                (result_is db db' (after_settled p db) step h)

          overage_refused :
              ltb_ℤ (pos 0) overage ≡ true
              → stripe.authorize_and_capture overage booking_id ≡ none
              → CaptureEffect db db'
          unfolding handle_capture_payment_requested get_by_booking_id save write_ledger_pair
          overage_refused due declined =
              let step : handler db ≡ (ok tt, after_settled p db) =
                rw (found, held, went, write_ledger_pair, amount, due, declined) in
              settled p found held (positive hold amount)
                (result_is db db' (after_settled p db) step h)

          overage_charged :
              (intent : String)
              → ltb_ℤ (pos 0) overage ≡ true
              → stripe.authorize_and_capture overage booking_id ≡ some intent
              → CaptureEffect db db'
          unfolding handle_capture_payment_requested get_by_booking_id save write_ledger_pair
          overage_charged intent due charged =
              let (more, more') = is_positive overage due in
              let rows : replace booking_of (record (overage_row p intent) { status = captured })
                    (replace booking_of (overage_row p intent) db.payments)
                  ≡ replace booking_of (record (overage_row p intent) { status = captured })
                      db.payments =
                replace-replace booking_of (overage_row p intent)
                  (record (overage_row p intent) { status = captured }) db.payments refl in
              let entries : (db.ledger ++ ledger_pair p booking_id host_id hold rental)
                    ++ ledger_pair p booking_id host_id overage mileage_overage
                  ≡ db.ledger
                    ++ (ledger_pair p booking_id host_id hold rental
                        ++ ledger_pair p booking_id host_id overage mileage_overage) =
                append_assoc db.ledger (ledger_pair p booking_id host_id hold rental)
                  (ledger_pair p booking_id host_id overage mileage_overage) in
              let step : handler db ≡ (ok tt, after_overage p intent db) = rw (
                found, held, went, write_ledger_pair, amount, due, charged, more', rows, entries,
              ) in
              settled_with_overage p intent found held (positive hold amount) more
                (result_is db db' (after_overage p intent db) step h)

  paid_capture :
      (db db' : PaymentDb)
      → handler db ≡ (ok tt, db')
      → (p : Payment) → find booking_of booking_id db.payments ≡ some p
      → status_is_authorized p.status ≡ true
      → stripe.capture p.stripe_payment_intent_id hold booking_id ≡ true
      → CaptureEffect db db'
  paid_capture db db' h p found held went = elim (Bool-cases (leb_ℤ hold (pos 0))) [
    | inl amount ↦ refused db db' h p found held went amount
    | inr amount ↦ elim (Bool-cases (ltb_ℤ (pos 0) overage)) [
      | inr none_due ↦ without_overage db db' h p found held went amount none_due
      | inl due ↦ elim (Option-cases (stripe.authorize_and_capture overage booking_id)) [
        | inl declined ↦ overage_refused db db' h p found held went amount due declined
        | inr (intent, charged) ↦
            overage_charged db db' h p found held went amount intent due charged
      ]
    ]
  ]

  held_capture :
      (db db' : PaymentDb)
      → handler db ≡ (ok tt, db')
      → (p : Payment) → find booking_of booking_id db.payments ≡ some p
      → CaptureEffect db db'
  held_capture db db' h p found = elim (Bool-cases (status_is_authorized p.status)) [
    | inr e ↦ not_held db db' h p found e
    | inl held ↦ elim (Bool-cases (stripe.capture p.stripe_payment_intent_id hold booking_id)) [
      | inr went ↦ not_captured db db' h p found held went
      | inl went ↦ paid_capture db db' h p found held went
    ]
  ]

  -- A capture command that returns has one of the four effects.
  pub capture-CaptureEffect :
      (db db' : PaymentDb) → handler db ≡ (ok tt, db') → CaptureEffect db db'
  unfolding handle_capture_payment_requested get_by_booking_id
  capture-CaptureEffect db db' h = elim (Option-cases (find booking_of booking_id db.payments)) [
    | inl missing ↦
        let step : handler db ≡ (ok tt, db) = rw (missing) in
        ignored (ap is_open missing) (result_is db db' db step h)
    | inr (p, found) ↦ held_capture db db' h p found
  ]
