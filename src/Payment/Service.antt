-- ===== src/Payment/Service.antt =====
-- services/payment/service.py and services/payment/consumers.py. What Stripe answers to a call is an
-- argument: the id of a payment intent, or nothing where the call raises a StripeError.
pub mod Capturing
pub mod Authorizing
pub mod Closing
use car_flow_mvp.Base.{
  ℕ, Bool, true, false, Option, none, some, String, List, [], ◌∷◌, ⊤, if◌then◌else◌, is_some, not,
}
use car_flow_mvp.Base.Int.{ℤ, pos, ltb_ℤ}
use car_flow_mvp.Base.Exec.{pure, modify, when, ◌>>=◌, ◌>>◌}
use car_flow_mvp.Shared.Outbox.{write_outbox_event}
use car_flow_mvp.Shared.Consumer.{Handlers}
use car_flow_mvp.Payment.Model.{
  PaymentStatus, authorized, authorization_failed, captured, capture_failed, Payment,
  renter_account, host_account, rental, mileage_overage, PaymentMessage, payment_authorized,
  payment_authorization_failed, payment_captured, payment_capture_failed, PaymentDb, PaymentError,
  Action, get_by_booking_id, create, save, write_ledger_pair,
}
use car_flow_mvp.Booking.Model.{
  BookingMessage, authorize_payment_requested, capture_payment_requested,
}

-- The answers of a StripeClient (services/payment/stripe_client.py), by the amount and the booking that
-- the idempotency key names; `capture` returns nothing, so its answer is whether it went through.
pub record StripeClient : Type 0 where
  pub authorize : ℤ → ℕ → Option String
  pub capture : Option String → ℤ → ℕ → Bool
  pub authorize_and_capture : ℤ → ℕ → Option String

-- The values that the calls of `uuid4` return: of a new payment, and of the message.
pub record Ids : Type 0 where
  pub payment_id : ℕ
  pub event_id : ℕ

abbrev pub emit : ℕ → ℕ → PaymentMessage → Action ⊤
emit event_id booking_id message = modify (λ db. record db {
  outbox = write_outbox_event event_id "payment" booking_id message db.outbox;
})

abbrev pub status_is_authorized : PaymentStatus → Bool
status_is_authorized authorized = true
status_is_authorized _ = false

module _ (stripe : StripeClient) (ids : Ids) where
  abbrev pub authorize_new : (booking_id renter_id : ℕ) → ℤ → Option String → Action ⊤
  authorize_new booking_id renter_id amount_cents none = do
    create ids.payment_id booking_id renter_id amount_cents authorization_failed none
    emit ids.event_id booking_id (payment_authorization_failed booking_id)
  authorize_new booking_id renter_id amount_cents (some intent_id) = do
    create ids.payment_id booking_id renter_id amount_cents authorized (some intent_id)
    emit ids.event_id booking_id (payment_authorized booking_id)

  unfoldable pub handle_authorize_payment_requested : (booking_id renter_id : ℕ) → ℤ → Action ⊤
  handle_authorize_payment_requested booking_id renter_id amount_cents = do
    existing ← get_by_booking_id booking_id
    when (not (is_some existing))
        (authorize_new booking_id renter_id amount_cents (stripe.authorize amount_cents booking_id))

  -- The second charge, for the overage; a failure is only logged.
  abbrev pub charge_overage :
      Payment → (booking_id host_id : ℕ) → ℤ → Option String → Action Payment
  charge_overage payment booking_id host_id overage_cents none = pure payment
  charge_overage payment booking_id host_id overage_cents (some overage_intent_id) =
      let charged : Payment = record payment {
        stripe_overage_intent_id = some overage_intent_id;
        overage_cents = overage_cents;
      } in
      do
        save charged
        write_ledger_pair payment.id booking_id (renter_account payment.renter_id)
            (host_account host_id) overage_cents mileage_overage
        pure charged

  -- `if overage_cents > 0`
  abbrev pub overage_step : Bool → Payment → (booking_id host_id : ℕ) → ℤ → Action Payment
  overage_step true payment booking_id host_id overage_cents =
      charge_overage payment booking_id host_id overage_cents
        (stripe.authorize_and_capture overage_cents booking_id)
  overage_step false payment booking_id host_id overage_cents = pure payment

  -- After Stripe's answer to the capture of the hold.
  abbrev pub capture_answered : Bool → Payment → (booking_id host_id : ℕ) → ℤ → ℤ → Action ⊤
  capture_answered false payment booking_id host_id hold_amount_cents overage_cents = do
    save (record payment { status = capture_failed })
    emit ids.event_id booking_id (payment_capture_failed booking_id)
  capture_answered true payment booking_id host_id hold_amount_cents overage_cents = do
    write_ledger_pair payment.id booking_id (renter_account payment.renter_id)
        (host_account host_id) hold_amount_cents rental
    charged ← overage_step (ltb_ℤ (pos 0) overage_cents) payment booking_id host_id overage_cents
    save (record charged { status = captured })
    emit ids.event_id booking_id (payment_captured booking_id)

  abbrev pub capture_held : Option Payment → (booking_id host_id : ℕ) → ℤ → ℤ → Action ⊤
  capture_held none booking_id host_id hold_amount_cents overage_cents = pure tt
  capture_held (some payment) booking_id host_id hold_amount_cents overage_cents =
      when (status_is_authorized payment.status) (
        capture_answered
          (stripe.capture payment.stripe_payment_intent_id hold_amount_cents booking_id) payment
          booking_id host_id hold_amount_cents overage_cents)

  unfoldable pub handle_capture_payment_requested : (booking_id host_id : ℕ) → ℤ → ℤ → Action ⊤
  handle_capture_payment_requested booking_id host_id hold_amount_cents overage_cents = do
    payment ← get_by_booking_id booking_id
    capture_held payment booking_id host_id hold_amount_cents overage_cents

-- `build_booking_command_handlers`: the other messages on the topic have no handler here. `fresh` gives
-- the values of `uuid4`.
module _ (stripe : StripeClient) (fresh : BookingMessage → Ids) where
  unfoldable pub booking_command_handlers : Handlers PaymentDb PaymentError BookingMessage
  booking_command_handlers (authorize_payment_requested booking_id renter_id amount_cents) = some (
      handle_authorize_payment_requested stripe
        (fresh (authorize_payment_requested booking_id renter_id amount_cents)) booking_id renter_id
        amount_cents)
  booking_command_handlers
        (capture_payment_requested booking_id host_id hold_amount_cents overage_cents) =
      some (
        handle_capture_payment_requested stripe
          (fresh (capture_payment_requested booking_id host_id hold_amount_cents overage_cents))
          booking_id host_id hold_amount_cents overage_cents)
  booking_command_handlers _ = none
