-- ===== src/Payment/Service/Closing.antt =====
-- services/payment/service.py: a booking whose payment cannot be captured any more.
use car_flow_mvp.Base.{ℕ, ◌≡◌, refl, ap, ◌∙◌, Bool, false, Option, none, some, List, ==_refl, arith}
use car_flow_mvp.Base.Int.{ℤ}
use car_flow_mvp.Base.Result.{ok}
use car_flow_mvp.Base.Table.{find, replace, find-replace, find-key}
use car_flow_mvp.Payment.Model.{
  captured, capture_failed, Payment, PaymentDb, booking_of, get_by_booking_id,
}
use car_flow_mvp.Payment.Service.Capturing.{
  ignored, failed, settled, settled_with_overage, is_open, capture-CaptureEffect,
}
use car_flow_mvp.Payment.Service.{
  StripeClient, Ids, status_is_authorized, handle_capture_payment_requested,
}

module _ (stripe : StripeClient) (ids : Ids) (booking_id host_id : ℕ) (hold overage : ℤ) where
  closed_ignored :
      (db : PaymentDb) (o : Option Payment)
      → find booking_of booking_id db.payments ≡ o
      → is_open o ≡ false
      → handle_capture_payment_requested stripe ids booking_id host_id hold overage db ≡ (ok tt, db)
  unfolding handle_capture_payment_requested get_by_booking_id
  closed_ignored db none found e = rw (found)
  closed_ignored db (some p) found e = rw (found, e)

  -- A capture command for a booking without a payment that can be captured changes nothing.
  pub closed-ignored :
      (db : PaymentDb)
      → is_open (find booking_of booking_id db.payments) ≡ false
      → handle_capture_payment_requested stripe ids booking_id host_id hold overage db ≡ (ok tt, db)
  closed-ignored db e = closed_ignored db (find booking_of booking_id db.payments) refl e

  replaced_closed :
      (w : Payment) (rows : List Payment)
      → w.booking_id ≡ booking_id
      → status_is_authorized w.status ≡ false
      → is_open (find booking_of booking_id (replace booking_of w rows)) ≡ false
  replaced_closed w rows key e =
      ground (arith, find-replace booking_of booking_id w rows, ==_refl booking_id)

  -- After a capture command that returns, the booking has no payment that can be captured.
  pub capture-closes :
      (db db' : PaymentDb)
      → handle_capture_payment_requested stripe ids booking_id host_id hold overage db
        ≡ (ok tt, db')
      → is_open (find booking_of booking_id db'.payments) ≡ false
  capture-closes db db' h =
      let after : PaymentDb → Bool = λ d. is_open (find booking_of booking_id d.payments) in
      elim (capture-CaptureEffect stripe ids booking_id host_id hold overage db db' h) [
        | ignored e same ↦ ap after same ∙ e
        | failed p found held e ↦
            ap after e
            ∙ replaced_closed (record p { status = capture_failed }) db.payments
                (find-key booking_of booking_id p db.payments found) refl
        | settled p found held _ e ↦
            ap after e
            ∙ replaced_closed (record p { status = captured }) db.payments
                (find-key booking_of booking_id p db.payments found) refl
        | settled_with_overage p intent found held _ _ e ↦
            ap after e
            ∙ replaced_closed
                (record p {
                  status = captured;
                  stripe_overage_intent_id = some intent;
                  overage_cents = overage;
                })
                db.payments (find-key booking_of booking_id p db.payments found) refl
      ]
