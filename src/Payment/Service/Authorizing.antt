-- ===== src/Payment/Service/Authorizing.antt =====
-- What `handle_authorize_payment_requested` of services/payment/service.py does to the database, on
-- every branch that returns.
use car_flow_mvp.Base.{
  ℕ, ◌≡◌, sym, ap, ◌∙◌, Option, none, some, String, [], ◌∷◌, ◌++◌, ⊤, Option-cases, inl, inr,
}
use car_flow_mvp.Base.Int.{ℤ, pos}
use car_flow_mvp.Base.Result.{Result, ok}
use car_flow_mvp.Base.Table.{find}
use car_flow_mvp.Shared.Outbox.{write_outbox_event}
use car_flow_mvp.Payment.Model.{
  PaymentStatus, authorized, authorization_failed, Payment, PaymentMessage, payment_authorized,
  payment_authorization_failed, PaymentDb, PaymentError, booking_of, get_by_booking_id,
  insert_payment, create,
}
use car_flow_mvp.Payment.Service.{StripeClient, Ids, handle_authorize_payment_requested}

module _ (stripe : StripeClient) (ids : Ids) (booking_id renter_id : ℕ) (amount : ℤ) where
  abbrev pub new_payment : PaymentStatus → Option String → Payment
  new_payment status intent = record {
    id = ids.payment_id;
    booking_id = booking_id;
    renter_id = renter_id;
    hold_amount_cents = amount;
    overage_cents = pos 0;
    status = status;
    stripe_payment_intent_id = intent;
    stripe_overage_intent_id = none;
  }

  -- The row and the message that Stripe's answer leads to.
  abbrev pub opened_status : Option String → PaymentStatus
  opened_status none = authorization_failed
  opened_status (some intent) = authorized

  abbrev pub opened_message : Option String → PaymentMessage
  opened_message none = payment_authorization_failed booking_id
  opened_message (some intent) = payment_authorized booking_id

  abbrev pub after_opened : Option String → PaymentDb → PaymentDb
  after_opened intent db = record db {
    payments = db.payments ++ new_payment (opened_status intent) intent ∷ [];
    outbox = write_outbox_event ids.event_id "payment" booking_id (opened_message intent) db.outbox;
  }

  -- An authorize command is ignored, because the booking has a payment; or it makes one that does not
  -- count as captured.
  pub data AuthorizeEffect (db db' : PaymentDb) : Type 0 where
    repeated : db' ≡ db → AuthorizeEffect db db'
    opened :
        (intent : Option String)
        → find booking_of booking_id db.payments ≡ none
        → db' ≡ after_opened intent db
        → AuthorizeEffect db db'

  abbrev authorizing : PaymentDb → Result PaymentError ⊤ × PaymentDb
  authorizing = handle_authorize_payment_requested stripe ids booking_id renter_id amount

  module _ (db db' : PaymentDb) (h : authorizing db ≡ (ok tt, db')) where
    authorizes : (x : PaymentDb) → authorizing db ≡ (ok tt, x) → db' ≡ x
    authorizes x e = ap (λ (o : Result PaymentError ⊤ × PaymentDb). o.1) (sym h ∙ e)

    known : (p : Payment) → find booking_of booking_id db.payments ≡ some p → AuthorizeEffect db db'
    unfolding handle_authorize_payment_requested get_by_booking_id
    known p found =
        let step : authorizing db ≡ (ok tt, db) = rw (found) in repeated (authorizes db step)

    module _ (missing : find booking_of booking_id db.payments ≡ none) where
      held_back : stripe.authorize amount booking_id ≡ none → AuthorizeEffect db db'
      unfolding handle_authorize_payment_requested get_by_booking_id create insert_payment
      held_back e =
          let step : authorizing db ≡ (ok tt, after_opened none db) =
            rw (missing, e, create, insert_payment, missing) in
          opened none missing (authorizes (after_opened none db) step)

      granted :
          (intent : String)
          → stripe.authorize amount booking_id ≡ some intent
          → AuthorizeEffect db db'
      unfolding handle_authorize_payment_requested get_by_booking_id create insert_payment
      granted intent e =
          let step : authorizing db ≡ (ok tt, after_opened (some intent) db) =
            rw (missing, e, create, insert_payment, missing) in
          opened (some intent) missing (authorizes (after_opened (some intent) db) step)

    -- An authorize command that returns has one of the two effects.
    pub authorize-AuthorizeEffect : AuthorizeEffect db db'
    authorize-AuthorizeEffect = elim (Option-cases (find booking_of booking_id db.payments)) [
      | inr (p, found) ↦ known p found
      | inl missing ↦ elim (Option-cases (stripe.authorize amount booking_id)) [
        | inl e ↦ held_back missing e
        | inr (intent, e) ↦ granted missing intent e
      ]
    ]
