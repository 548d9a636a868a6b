-- ===== src/Payment/Machine.antt =====
-- The payment service as one machine: the commands that its consumer handles, in any order, with any
-- ids and any answers of Stripe.
use car_flow_mvp.Base.{ℕ, ◌≤◌, ◌≡◌, refl, sym, ap, subst, ◌∙◌, Option, some, List, [], ⊤, arith}
use car_flow_mvp.Base.Int.{ℤ}
use car_flow_mvp.Base.Result.{ok}
use car_flow_mvp.Base.Table.{find}
use car_flow_mvp.Booking.Model.{
  BookingMessage, authorize_payment_requested, capture_payment_requested, rejected_message,
  confirmed_message, cancelled_message, completed_message, capture_failed_message,
}
use car_flow_mvp.Payment.Model.{
  Action, Payment, Direction, Reason, rental, mileage_overage, PaymentDb, booking_of,
}
use car_flow_mvp.Payment.Service.{
  StripeClient, Ids, booking_command_handlers, handle_authorize_payment_requested,
  handle_capture_payment_requested,
}
use car_flow_mvp.Payment.Service.Capturing.{capture-CaptureEffect}
use car_flow_mvp.Payment.Service.Authorizing.{authorize-AuthorizeEffect}
use car_flow_mvp.Payment.Service.Closing.{closed-ignored, capture-closes}
use car_flow_mvp.Payment.Ledger.{entries, charges, IsSettledOnce, empty_db}
use car_flow_mvp.Payment.Ledger.Kept.{authorize-IsSettledOnce, capture-IsSettledOnce}

-- A database that the payment service can have.
pub data Reach : PaymentDb → Type 0 where
  start : Reach empty_db
  commit :
      (stripe : StripeClient) (fresh : BookingMessage → Ids) (message : BookingMessage)
      (handler : Action ⊤) {db db' : PaymentDb}
      → Reach db
      → booking_command_handlers stripe fresh message ≡ some handler
      → handler db ≡ (ok tt, db')
      → Reach db'
  bookkeeping : (inbox : List ℕ) {db : PaymentDb} → Reach db → Reach (record db { inbox = inbox })

by_handler :
    (known handler : Action ⊤) (db db' : PaymentDb)
    → ◌≡◌ {A = Option (Action ⊤)} (some known) (some handler)
    → handler db ≡ (ok tt, db')
    → known db ≡ (ok tt, db')
by_handler known handler db db' is h =
    let same : known ≡ handler = cc in ap (λ (f : Action ⊤). f db) same ∙ h

handled :
    (stripe : StripeClient) (fresh : BookingMessage → Ids) (message : BookingMessage)
    (handler : Action ⊤) (db db' : PaymentDb)
    → booking_command_handlers stripe fresh message ≡ some handler
    → handler db ≡ (ok tt, db')
    → IsSettledOnce db
    → IsSettledOnce db'
unfolding booking_command_handlers
handled s fresh (authorize_payment_requested b r a) handler db db' is h c =
    let i = fresh (authorize_payment_requested b r a) in
    let h' : handle_authorize_payment_requested s i b r a db ≡ (ok tt, db') =
      by_handler (handle_authorize_payment_requested s i b r a) handler db db' is h in
    authorize-IsSettledOnce s i b r a a (authorize-AuthorizeEffect s i b r a db db' h') c
handled s fresh (capture_payment_requested b n a o) handler db db' is h c =
    let i = fresh (capture_payment_requested b n a o) in
    let h' : handle_capture_payment_requested s i b n a o db ≡ (ok tt, db') =
      by_handler (handle_capture_payment_requested s i b n a o) handler db db' is h in
    capture-IsSettledOnce s i b n a o (capture-CaptureEffect s i b n a o db db' h') c
handled s i (rejected_message _) handler db db' is h c = cc
handled s i (confirmed_message _) handler db db' is h c = cc
handled s i (cancelled_message _) handler db db' is h c = cc
handled s i (completed_message _) handler db db' is h c = cc
handled s i (capture_failed_message _) handler db db' is h c = cc

nothing : (b : ℕ) (d : Direction) (r : Reason) → entries b d r [] ≡ charges r (find booking_of b [])
unfolding entries find
nothing b d rental = refl
nothing b d mileage_overage = refl

Reach-IsSettledOnce : {db : PaymentDb} → Reach db → IsSettledOnce db
unfolding entries find
Reach-IsSettledOnce start = record { counted = nothing; no_overage_yet = λ b. refl }
Reach-IsSettledOnce (commit s i m handler {db = db} {db' = db'} r is h) =
    handled s i m handler db db' is h (Reach-IsSettledOnce r)
Reach-IsSettledOnce (bookkeeping inbox r) =
    let c = Reach-IsSettledOnce r in
    record { counted = c.counted; no_overage_yet = c.no_overage_yet }

charges_one : (reason : Reason) (payment : Option Payment) → charges reason payment ≤ 1
charges_one rental o = ground arith
charges_one mileage_overage o = ground arith

-- In every database that the payment service can have, the ledger has, for each booking, direction and
-- reason, exactly as many entries as the booking's payment says were charged, and at most one: for the
-- rental one if the payment is captured, for the overage one if it has an overage intent. So no booking
-- is charged twice, and every debit has its credit.
pub charged_at_most_once :
    (booking_id : ℕ) (direction : Direction) (reason : Reason) {db : PaymentDb}
    → Reach db
    → (entries booking_id direction reason db.ledger
        ≡ charges reason (find booking_of booking_id db.payments))
      × (entries booking_id direction reason db.ledger ≤ 1)
charged_at_most_once b d r {db} reached =
    let same = (Reach-IsSettledOnce reached).counted b d r in
    (same, subst (λ n. n ≤ 1) (sym same) (charges_one r (find booking_of b db.payments)))

-- After a capture command that returns, a capture command for the same booking changes nothing and
-- returns, whatever its amounts, whatever Stripe would answer and whatever the first one did.
pub capture_repeated :
    (stripe stripe' : StripeClient) (ids ids' : Ids) (booking_id host_id host_id' : ℕ)
    (hold overage hold' overage' : ℤ) (db db' : PaymentDb)
    → handle_capture_payment_requested stripe ids booking_id host_id hold overage db ≡ (ok tt, db')
    → handle_capture_payment_requested stripe' ids' booking_id host_id' hold' overage' db'
      ≡ (ok tt, db')
capture_repeated s s' i i' b n n' hold overage hold' overage' db db' h =
    closed-ignored s' i' b n' hold' overage' db' (capture-closes s i b n hold overage db db' h)
