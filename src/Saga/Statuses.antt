-- ===== src/Saga/Statuses.antt =====
-- What the statuses of a booking and of its payment say of each other.
use car_flow_mvp.Base.{ℕ, ◌≡◌, refl, Bool, true, false, Option, none, some, arith}
use car_flow_mvp.Base.Table.{find}
use car_flow_mvp.Booking.Domain.{
  BookingStatus, requested, confirmed, active, completed, cancelled, rejected,
}
use car_flow_mvp.Payment.Model.{
  PaymentStatus, authorized, authorization_failed, captured, capture_failed, Payment,
  PaymentMessage, payment_authorized, payment_authorization_failed, payment_captured,
  payment_capture_failed, PaymentDb, booking_of,
}

abbrev pub status_in : Option Payment → Option PaymentStatus
status_in none = none
status_in (some payment) = some payment.status

-- The status of a booking's payment, if there is one.
abbrev pub payment_status : ℕ → PaymentDb → Option PaymentStatus
payment_status booking_id db = status_in (find booking_of booking_id db.payments)

-- The money of the hold was set aside.
abbrev pub was_held : Option PaymentStatus → Bool
was_held none = false
was_held (some authorization_failed) = false
was_held (some _) = true

abbrev pub was_captured : Option PaymentStatus → Bool
was_captured (some captured) = true
was_captured _ = false

abbrev pub was_refused : Option PaymentStatus → Bool
was_refused (some authorization_failed) = true
was_refused _ = false

abbrev pub was_lost : Option PaymentStatus → Bool
was_lost (some capture_failed) = true
was_lost _ = false

-- The booking's status is one that the payment's status allows.
abbrev pub backed : BookingStatus → Option PaymentStatus → Bool
backed requested o = true
backed rejected o = true
backed confirmed o = was_held o
backed active o = was_held o
backed completed o = was_captured o
backed cancelled o = was_refused o

-- The booking that a message is about.
abbrev pub subject : PaymentMessage → ℕ
subject (payment_authorized booking_id) = booking_id
subject (payment_authorization_failed booking_id) = booking_id
subject (payment_captured booking_id) = booking_id
subject (payment_capture_failed booking_id) = booking_id

-- The message is true of the payment.
abbrev pub told_truly : PaymentMessage → Option PaymentStatus → Bool
told_truly (payment_authorized booking_id) o = was_held o
told_truly (payment_authorization_failed booking_id) o = was_refused o
told_truly (payment_captured booking_id) o = was_captured o
told_truly (payment_capture_failed booking_id) o = was_lost o

-- The payment's status may become another one: only a held amount is still to be decided on.
abbrev pub follows : Option PaymentStatus → Option PaymentStatus → Bool
follows none o = true
follows (some authorized) o = was_held o
follows (some authorization_failed) o = was_refused o
follows (some captured) o = was_captured o
follows (some capture_failed) o = was_lost o

pub follows_refl : (o : Option PaymentStatus) → follows o o ≡ true
follows_refl none = refl
follows_refl (some authorized) = refl
follows_refl (some authorization_failed) = refl
follows_refl (some captured) = refl
follows_refl (some capture_failed) = refl

-- What was true of a payment stays true.
pub told_truly-follows :
    (m : PaymentMessage) (o o' : Option PaymentStatus)
    → follows o o' ≡ true
    → told_truly m o ≡ true
    → told_truly m o' ≡ true
told_truly-follows (payment_authorized i) o o' later h = ground arith
told_truly-follows (payment_authorization_failed i) o o' later h = ground arith
told_truly-follows (payment_captured i) o o' later h = ground arith
told_truly-follows (payment_capture_failed i) o o' later h = ground arith

pub backed-follows :
    (st : BookingStatus) (o o' : Option PaymentStatus)
    → follows o o' ≡ true
    → backed st o ≡ true
    → backed st o' ≡ true
backed-follows requested o o' later h = refl
backed-follows rejected o o' later h = refl
backed-follows confirmed o o' later h = ground arith
backed-follows active o o' later h = ground arith
backed-follows completed o o' later h = ground arith
backed-follows cancelled o o' later h = ground arith
