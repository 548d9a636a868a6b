-- ===== src/Payment/Model.antt =====
-- services/payment/models.py, services/payment/repository.py, and the tables of
-- services/payment/migrations/versions/0001_initial.py.
use car_flow_mvp.Base.{
  ℕ, Option, none, String, List, [], ◌∷◌, ◌++◌, ⊤, refl, is_some, if◌then◌else◌,
}
use car_flow_mvp.Base.Int.{ℤ, pos, leb_ℤ}
use car_flow_mvp.Base.Result.{ok, err}
use car_flow_mvp.Base.Exec.{Exec, gets, modify}
use car_flow_mvp.Base.Table.{find, replace}
use car_flow_mvp.Shared.Outbox.{OutboxRow}
use car_flow_mvp.Shared.Consumer.{InboxTable}

pub data PaymentStatus : Type 0 where
  authorized authorization_failed captured capture_failed : PaymentStatus

-- A row of `payments`. Stripe's ids are texts.
pub record Payment : Type 0 where
  pub id : ℕ
  pub booking_id : ℕ
  pub renter_id : ℕ
  pub hold_amount_cents : ℤ
  pub overage_cents : ℤ
  pub status : PaymentStatus
  pub stripe_payment_intent_id : Option String
  pub stripe_overage_intent_id : Option String

-- `renter:<id>` and `host:<id>`.
pub data Account : Type 0 where
  renter_account host_account : ℕ → Account

pub data Direction : Type 0 where
  debit credit : Direction

pub data Reason : Type 0 where
  rental mileage_overage : Reason

-- A row of `ledger_entries`.
pub record LedgerEntry : Type 0 where
  pub payment_id : ℕ
  pub booking_id : ℕ
  pub account : Account
  pub direction : Direction
  pub amount_cents : ℤ
  pub reason : Reason

-- The messages of the payment service: `event_type`, with the booking's id as `data`.
pub data PaymentMessage : Type 0 where
  payment_authorized payment_authorization_failed : ℕ → PaymentMessage
  payment_captured payment_capture_failed : ℕ → PaymentMessage

-- The database of the payment service.
pub record PaymentDb : Type 0 where
  pub payments : List Payment
  pub ledger : List LedgerEntry
  pub outbox : List (OutboxRow PaymentMessage)
  pub inbox : List ℕ

abbrev pub inbox_table : InboxTable PaymentDb
inbox_table = record {
  inbox = λ db. db.inbox;
  with_inbox = λ ids db. record db { inbox = ids };
  inbox-with_inbox = λ ids db. refl;
}

-- An IntegrityError, which nothing in the service catches.
pub data PaymentError : Type 0 where
  integrity_error : PaymentError

abbrev pub Action : Type 0 → Type 0
Action A = Exec PaymentDb PaymentError A

-- The column `booking_id` is unique.
abbrev pub booking_of : Payment → ℕ
booking_of p = p.booking_id

unfoldable pub get_by_booking_id : ℕ → Action (Option Payment)
get_by_booking_id booking_id = gets (λ db. find booking_of booking_id db.payments)

-- The INSERT of a payment, refused if the booking has one.
unfoldable pub insert_payment : Payment → Action ⊤
insert_payment payment db =
    if is_some (find booking_of payment.booking_id db.payments)
    then (err integrity_error, db)
    else (ok tt, record db { payments = db.payments ++ payment ∷ [] })

-- `create`; `payment_id` is the value of the column's default, `uuid4`.
unfoldable pub create : ℕ → ℕ → ℕ → ℤ → PaymentStatus → Option String → Action ⊤
create payment_id booking_id renter_id hold_amount_cents status stripe_payment_intent_id =
    insert_payment (record {
      id = payment_id;
      booking_id = booking_id;
      renter_id = renter_id;
      hold_amount_cents = hold_amount_cents;
      overage_cents = pos 0;
      status = status;
      stripe_payment_intent_id = stripe_payment_intent_id;
      stripe_overage_intent_id = none;
    })

-- The flush writes the changed object to its row.
unfoldable pub save : Payment → Action ⊤
save payment = modify (λ db. record db { payments = replace booking_of payment db.payments })

-- Two entries of one amount; the constraint `ck_ledger_entries_amount_positive` refuses one that is
-- not positive.
unfoldable pub write_ledger_pair : ℕ → ℕ → Account → Account → ℤ → Reason → Action ⊤
write_ledger_pair payment_id booking_id debit_account credit_account amount_cents reason db =
    if leb_ℤ amount_cents (pos 0) then (err integrity_error, db) else (
      ok tt,
      record db {
        ledger =
            db.ledger
            ++ record {
              payment_id = payment_id;
              booking_id = booking_id;
              account = debit_account;
              direction = debit;
              amount_cents = amount_cents;
              reason = reason;
            }
              ∷ record {
                payment_id = payment_id;
                booking_id = booking_id;
                account = credit_account;
                direction = credit;
                amount_cents = amount_cents;
                reason = reason;
              }
              ∷ [];
      },
    )
