-- ===== src/Payment/Ledger.antt =====
-- The ledger of the payment service over any sequence of its commands: services/payment/service.py as
-- one machine on the database.
pub mod Kept
use car_flow_mvp.Base.{
  ℕ, ◌+◌, ◌≡◌, ◌≢◌, refl, sym, ap, ◌∙◌, Bool, true, false, ◌&&◌, Option, none, some, String, List,
  [], ◌∷◌, ◌++◌, Bool-cases, inl, inr, arith, ◌==◌, ==→eq, is_some, not, ◌||◌, subst, if◌then◌else◌,
}
use car_flow_mvp.Base.Int.{ℤ}
use car_flow_mvp.Base.Table.{find, replace, find-replace, find-append_one, find-key}
use car_flow_mvp.Payment.Model.{
  PaymentStatus, captured, capture_failed, Payment, Direction, debit, credit, Reason, rental,
  mileage_overage, LedgerEntry, PaymentDb, booking_of,
}
use car_flow_mvp.Payment.Service.{StripeClient, Ids, status_is_authorized}
use car_flow_mvp.Payment.Service.Capturing.{
  ledger_pair, CaptureEffect, ignored, failed, settled, settled_with_overage,
}
use car_flow_mvp.Payment.Service.Authorizing.{
  AuthorizeEffect, repeated, opened, new_payment, opened_status,
}

abbrev pub same_direction : Direction → Direction → Bool
same_direction debit debit = true
same_direction credit credit = true
same_direction _ _ = false

abbrev pub same_reason : Reason → Reason → Bool
same_reason rental rental = true
same_reason mileage_overage mileage_overage = true
same_reason _ _ = false

-- Whether an entry is of a booking, in a direction and for a reason.
abbrev pub is_entry : ℕ → Direction → Reason → LedgerEntry → Bool
is_entry booking_id direction reason entry =
    (entry.booking_id == booking_id)
    && same_direction entry.direction direction
    && same_reason entry.reason reason

-- How many entries of the ledger are of a booking, in a direction and for a reason.
unfoldable pub entries : ℕ → Direction → Reason → List LedgerEntry → ℕ
entries booking_id direction reason [] = 0
entries booking_id direction reason (entry ∷ ledger) =
    (if is_entry booking_id direction reason entry then 1 else 0)
    + entries booking_id direction reason ledger

-- How often a booking's payment says that its renter was charged, for each reason.
abbrev status_charges : PaymentStatus → ℕ
status_charges captured = 1
status_charges _ = 0

abbrev intent_charges : Option String → ℕ
intent_charges none = 0
intent_charges (some intent) = 1

abbrev pub charges : Reason → Option Payment → ℕ
charges reason none = 0
charges rental (some payment) = status_charges payment.status
charges mileage_overage (some payment) = intent_charges payment.stripe_overage_intent_id

-- A payment whose hold is not captured has no second charge.
abbrev pub unsettled_has_no_overage : Option Payment → Bool
unsettled_has_no_overage none = true
unsettled_has_no_overage (some payment) =
    not (status_is_authorized payment.status) || not (is_some payment.stripe_overage_intent_id)

-- Each movement of money has its two entries, and as many as the payment says.
pub record IsSettledOnce (db : PaymentDb) : Type 0 where
  pub counted :
      (booking_id : ℕ) (direction : Direction) (reason : Reason)
      → entries booking_id direction reason db.ledger
        ≡ charges reason (find booking_of booking_id db.payments)
  pub no_overage_yet :
      (booking_id : ℕ) → unsettled_has_no_overage (find booking_of booking_id db.payments) ≡ true

abbrev pub empty_db : PaymentDb
empty_db = record { payments = []; ledger = []; outbox = []; inbox = [] }
