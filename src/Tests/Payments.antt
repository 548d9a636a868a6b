-- ===== src/Tests/Payments.antt =====
-- Concrete runs of the payment service.
use car_flow_mvp.Base.{List, [], ◌∷◌, ◌++◌, length, ◌≤◌, ◌≡◌, refl, true, some, Option, String, ℕ}
use car_flow_mvp.Base.Int.{pos}
use car_flow_mvp.Base.Result.{ok}
use car_flow_mvp.Base.Table.{find, replace}
use car_flow_mvp.Booking.Model.{
  BookingMessage, authorize_payment_requested, capture_payment_requested,
}
use car_flow_mvp.Payment.Model.{
  inbox_table, debit, rental, PaymentDb, booking_of, get_by_booking_id, insert_payment, create,
  save, write_ledger_pair,
}
use car_flow_mvp.Shared.Outbox.{Envelope}
use car_flow_mvp.Shared.Consumer.{claim_event, dispatch, process, run_consumer}
use car_flow_mvp.Payment.Service.{
  StripeClient, Ids, booking_command_handlers, handle_authorize_payment_requested,
  handle_capture_payment_requested,
}
use car_flow_mvp.Payment.Ledger.{entries, charges, empty_db}
use car_flow_mvp.Payment.Consumers.{booking_commands_redelivered}
use car_flow_mvp.Payment.Machine.{Reach, start, commit, charged_at_most_once, capture_repeated}

-- A Stripe that lets every charge through.
abbrev willing : StripeClient
willing = record {
  authorize = λ amount booking_id. some "pi";
  capture = λ intent amount booking_id. true;
  authorize_and_capture = λ amount booking_id. some "pi_overage";
}

abbrev ids : Ids
ids = record { payment_id = 50; event_id = 200 }

abbrev capture_ids : Ids
capture_ids = record { payment_id = 51; event_id = 201 }

abbrev held : PaymentDb
held = (handle_authorize_payment_requested willing ids 10 2 (pos 15000) empty_db).1

abbrev paid : PaymentDb
paid = (handle_capture_payment_requested willing capture_ids 10 1 (pos 15000) (pos 2500) held).1

authorize_returns :
    handle_authorize_payment_requested willing ids 10 2 (pos 15000) empty_db ≡ (ok tt, held)
unfolding handle_authorize_payment_requested get_by_booking_id create insert_payment find
authorize_returns = refl

capture_returns :
    handle_capture_payment_requested willing capture_ids 10 1 (pos 15000) (pos 2500) held
    ≡ (ok tt, paid)
unfolding handle_authorize_payment_requested get_by_booking_id create insert_payment find
    handle_capture_payment_requested save write_ledger_pair replace
capture_returns = refl

abbrev authorize_command : BookingMessage
authorize_command = authorize_payment_requested 10 2 (pos 15000)

abbrev capture_command : BookingMessage
capture_command = capture_payment_requested 10 1 (pos 15000) (pos 2500)

authorize_handler :
    booking_command_handlers willing (λ message. ids) authorize_command
    ≡ some (handle_authorize_payment_requested willing ids 10 2 (pos 15000))
unfolding booking_command_handlers
authorize_handler = refl

capture_handler :
    booking_command_handlers willing (λ message. capture_ids) capture_command
    ≡ some (handle_capture_payment_requested willing capture_ids 10 1 (pos 15000) (pos 2500))
unfolding booking_command_handlers
capture_handler = refl

paid-Reach : Reach paid
paid-Reach =
    commit willing (λ message. capture_ids) capture_command
      (handle_capture_payment_requested willing capture_ids 10 1 (pos 15000) (pos 2500))
      (commit willing (λ message. ids) authorize_command
        (handle_authorize_payment_requested willing ids 10 2 (pos 15000)) start authorize_handler
        authorize_returns)
      capture_handler capture_returns

charged_at_most_once_example :
    (entries 10 debit rental paid.ledger ≡ charges rental (find booking_of 10 paid.payments))
    × (entries 10 debit rental paid.ledger ≤ 1)
charged_at_most_once_example = charged_at_most_once 10 debit rental paid-Reach

-- The second command asks for other amounts.
capture_repeated_example :
    handle_capture_payment_requested willing ids 10 1 (pos 99) (pos 7) paid ≡ (ok tt, paid)
capture_repeated_example =
    capture_repeated willing willing capture_ids ids 10 1 1 (pos 15000) (pos 2500) (pos 99) (pos 7)
      held paid capture_returns

abbrev commands : List (Envelope BookingMessage)
commands = record { event_id = 100; message = authorize_command } ∷ []

abbrev later_commands : List (Envelope BookingMessage)
later_commands = record { event_id = 101; message = capture_command } ∷ []

commands_handled :
    (run_consumer inbox_table
      (booking_command_handlers willing (λ message. ids))
      commands
      empty_db).0
    ≡ length commands
unfolding run_consumer process claim_event dispatch booking_command_handlers
    handle_authorize_payment_requested get_by_booking_id create insert_payment find
commands_handled = refl

booking_commands_redelivered_example :
    let db' =
      (run_consumer inbox_table
        (booking_command_handlers willing (λ message. ids))
        commands
        empty_db).1 in
    (run_consumer inbox_table
      (booking_command_handlers willing (λ message. ids))
      (commands ++ later_commands)
      db').1
    ≡ (run_consumer inbox_table
        (booking_command_handlers willing (λ message. ids))
        later_commands
        db').1
booking_commands_redelivered_example =
    booking_commands_redelivered willing (λ message. ids) commands later_commands empty_db
      commands_handled

abbrev always_signed : String → String → Option ℕ
always_signed payload signature = some 900
