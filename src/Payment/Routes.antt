-- ===== src/Payment/Routes.antt =====
-- services/payment/routes.py: reading a payment, and the webhook. `construct_event` of the Stripe SDK is
-- an argument: the id of the event, or nothing where the signature is refused.
use car_flow_mvp.Base.{
  List, sym, ap, ◌∙◌, Bool-cases, Option-cases, inl, inr, ℕ, ◌≡◌, Option, String, ⊤, ◌∷◌,
}
use car_flow_mvp.Base.Int.{ℤ}
use car_flow_mvp.Base.Result.{err, Result, ok}
use car_flow_mvp.Base.Exec.{Exec, pure, lift, continue, transact, catching, or_raise, ◌>>=◌, ◌>>◌}
use car_flow_mvp.Shared.Http.{Failure, http_exception, server_error}
use car_flow_mvp.Shared.Auth.{admin, Claims, require_role}
use car_flow_mvp.Shared.Consumer.{contains, claim_event}
use car_flow_mvp.Payment.Model.{
  PaymentStatus, Payment, PaymentDb, PaymentError, inbox_table, get_by_booking_id,
}

pub record PaymentResponse : Type 0 where
  pub booking_id : ℕ
  pub renter_id : ℕ
  pub status : PaymentStatus
  pub hold_amount_cents : ℤ
  pub overage_cents : ℤ
  pub stripe_payment_intent_id : Option String

-- `_payment_response`
abbrev pub payment_response : Payment → PaymentResponse
payment_response payment = record {
  booking_id = payment.booking_id;
  renter_id = payment.renter_id;
  status = payment.status;
  hold_amount_cents = payment.hold_amount_cents;
  overage_cents = payment.overage_cents;
  stripe_payment_intent_id = payment.stripe_payment_intent_id;
}

abbrev uncaught : PaymentError → Failure
uncaught e = server_error

unfoldable pub get_payment : Claims → ℕ → Exec PaymentDb Failure PaymentResponse
get_payment claims booking_id = do
  lift (require_role claims admin)
  found ← catching uncaught (get_by_booking_id booking_id)
  payment ← or_raise (http_exception 404 "payment not found") found
  pure (payment_response payment)

abbrev pub invalid_signature : Failure
invalid_signature = http_exception 400 "invalid webhook signature"

module _ (construct_event : String → String → Option ℕ) where
  -- A claimed event is only logged, and the answer is always the same.
  unfoldable pub stripe_webhook : String → String → Exec PaymentDb Failure ⊤
  unfolding claim_event
  stripe_webhook payload signature = transact (do
    event_id ← or_raise invalid_signature (construct_event payload signature)
    claimed ← claim_event inbox_table event_id
    pure tt)

  -- Where the webhook returns, it has changed the inbox at most.
  pub webhook-ok :
      (payload signature : String) (db db' : PaymentDb)
      → stripe_webhook payload signature db ≡ (ok tt, db')
      → (ids : List ℕ) × (db' ≡ record db { inbox = ids })
  unfolding stripe_webhook claim_event
  webhook-ok payload signature db db' h = elim (Option-cases (construct_event payload signature)) [
    | inl refused ↦
        let out : stripe_webhook payload signature db ≡ (err invalid_signature, db) =
          rw (refused) in
        let clash : ◌≡◌ {A = Result Failure ⊤} (err invalid_signature) (ok tt) =
          ap (λ (o : Result Failure ⊤ × PaymentDb). o.0) (sym out ∙ h) in
        cc
    | inr (event_id, signed) ↦ elim (Bool-cases (contains event_id db.inbox)) [
      | inl old ↦
          let out : stripe_webhook payload signature db ≡ (ok tt, db) =
            rw (signed, old, continue) in
          (db.inbox, ap (λ (o : Result Failure ⊤ × PaymentDb). o.1) (sym h ∙ out))
      | inr new ↦
          let out : stripe_webhook payload signature db
              ≡ (ok tt, record db { inbox = event_id ∷ db.inbox }) =
            rw (signed, new, continue) in
          (event_id ∷ db.inbox, ap (λ (o : Result Failure ⊤ × PaymentDb). o.1) (sym h ∙ out))
    ]
  ]
