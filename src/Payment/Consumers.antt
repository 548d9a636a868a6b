-- ===== src/Payment/Consumers.antt =====
-- services/payment/consumers.py: what a broker that delivers at least once does to the payment service.
use car_flow_mvp.Base.{length, ◌++◌, ℕ, ◌≡◌, sym, ap, List, ⊤}
use car_flow_mvp.Base.Int.{ℤ}
use car_flow_mvp.Base.Result.{Result, ok}
use car_flow_mvp.Booking.Model.{
  BookingMessage, authorize_payment_requested, capture_payment_requested, rejected_message,
  confirmed_message, cancelled_message, completed_message, capture_failed_message,
}
use car_flow_mvp.Payment.Model.{inbox_table, PaymentError, PaymentDb}
use car_flow_mvp.Payment.Service.{StripeClient, Ids, booking_command_handlers}
use car_flow_mvp.Shared.Outbox.{Envelope}
use car_flow_mvp.Shared.Consumer.{dispatch, run_consumer}
use car_flow_mvp.Shared.Consumer.ExactlyOnce.{LeavesInbox}
use car_flow_mvp.Shared.Consumer.Redelivery.{redelivery_harmless}
use car_flow_mvp.Payment.Service.Capturing.{
  CaptureEffect, ignored, failed, settled, settled_with_overage, capture-CaptureEffect,
}
use car_flow_mvp.Payment.Service.Authorizing.{
  AuthorizeEffect, repeated, opened, authorize-AuthorizeEffect,
}

authorize_keeps_inbox :
    {s : StripeClient} {i : Ids} {b r : ℕ} {a : ℤ} {db db' : PaymentDb}
    → AuthorizeEffect s i b r a db db'
    → db'.inbox ≡ db.inbox
authorize_keeps_inbox (repeated e) = ap PaymentDb.inbox e
authorize_keeps_inbox (opened intent missing e) = ap PaymentDb.inbox e

capture_keeps_inbox :
    {s : StripeClient} {i : Ids} {b n : ℕ} {hold overage : ℤ} {db db' : PaymentDb}
    → CaptureEffect s i b n hold overage db db'
    → db'.inbox ≡ db.inbox
capture_keeps_inbox (ignored _ e) = ap PaymentDb.inbox e
capture_keeps_inbox (failed p found held e) = ap PaymentDb.inbox e
capture_keeps_inbox (settled p found held amount e) = ap PaymentDb.inbox e
capture_keeps_inbox (settled_with_overage p intent found held amount more e) = ap PaymentDb.inbox e

idle :
    {db db' : PaymentDb}
    → ◌≡◌ {A = Result PaymentError ⊤ × PaymentDb} (ok tt, db) (ok tt, db')
    → db'.inbox ≡ db.inbox
idle h = ap (λ (o : Result PaymentError ⊤ × PaymentDb). PaymentDb.inbox o.1) (sym h)

-- The handlers of booking commands leave the inbox to the consumer.
booking_commands-LeavesInbox :
    (stripe : StripeClient) (fresh : BookingMessage → Ids)
    → LeavesInbox inbox_table (booking_command_handlers stripe fresh)
unfolding booking_command_handlers dispatch
booking_commands-LeavesInbox s fresh (authorize_payment_requested b r a) db db' h =
    authorize_keeps_inbox
      (authorize-AuthorizeEffect s (fresh (authorize_payment_requested b r a)) b r a db db' h)
booking_commands-LeavesInbox s fresh (capture_payment_requested b n a o) db db' h =
    capture_keeps_inbox
      (capture-CaptureEffect s (fresh (capture_payment_requested b n a o)) b n a o db db' h)
booking_commands-LeavesInbox s fresh (rejected_message _) db db' h = idle h
booking_commands-LeavesInbox s fresh (confirmed_message _) db db' h = idle h
booking_commands-LeavesInbox s fresh (cancelled_message _) db db' h = idle h
booking_commands-LeavesInbox s fresh (completed_message _) db db' h = idle h
booking_commands-LeavesInbox s fresh (capture_failed_message _) db db' h = idle h

-- The payment service after a restart: once a run of the messages on its topic has been handled,
-- delivering it again in front of other messages leaves the database that the others alone leave.
pub booking_commands_redelivered :
    (stripe : StripeClient) (fresh : BookingMessage → Ids) (xs ys : List (Envelope BookingMessage))
    (db : PaymentDb)
    → (run_consumer inbox_table (booking_command_handlers stripe fresh) xs db).0 ≡ length xs
    → let db' = (run_consumer inbox_table (booking_command_handlers stripe fresh) xs db).1 in
      (run_consumer inbox_table (booking_command_handlers stripe fresh) (xs ++ ys) db').1
      ≡ (run_consumer inbox_table (booking_command_handlers stripe fresh) ys db').1
booking_commands_redelivered s fresh xs ys db h =
    redelivery_harmless inbox_table (booking_command_handlers s fresh)
      (booking_commands-LeavesInbox s fresh) xs ys db h
