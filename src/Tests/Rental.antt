-- ===== src/Tests/Rental.antt =====
-- A rental from the request to the payment, over both services, and a rental whose payment Stripe
-- refuses.
use car_flow_mvp.Base.{ℕ, ◌≡◌, refl, true, false, none, some, [], ◌∷◌, ◌++◌, inl}
use car_flow_mvp.Base.Int.{pos, ◌*ℤ◌, ◌-ℤ◌}
use car_flow_mvp.Base.Result.{ok}
use car_flow_mvp.Base.Table.{find, replace}
use car_flow_mvp.Shared.Outbox.{OutboxRow, envelope_of}
use car_flow_mvp.Shared.Consumer.{claim_event, dispatch, process}
use car_flow_mvp.Booking.Domain
use car_flow_mvp.Booking.Domain.{instant, requested, confirmed, active, completed, cancelled}
use car_flow_mvp.Booking.Model as BookingTables
use car_flow_mvp.Booking.Model.{
  Booking, BookingMessage, BookingDb, authorize_payment_requested, capture_payment_requested,
  confirmed_message,
}
use car_flow_mvp.Booking.ListingClient.{approved, ListingResponse, get_vehicle}
use car_flow_mvp.Booking.Repository
use car_flow_mvp.Booking.Repository.{
  booking_key, get_by_id, conflicts, insert_booking, new_booking, create_requested, has_event,
  insert_event, insert_events, append_events,
}
use car_flow_mvp.Booking.Service
use car_flow_mvp.Booking.Service.{
  apply_transition, hold_amount, emit_authorize_payment_requested, emit_domain_event,
  request_booking, apply_payment_authorized, apply_payment_authorization_failed,
  apply_payment_captured,
}
use car_flow_mvp.Booking.Consumers.{payment_event_handlers}
use car_flow_mvp.Booking.Invariant.Begun.{empty_db}
use car_flow_mvp.Booking.Machine.{Operation, request, handover, take_back, run}
use car_flow_mvp.Payment.Model as PaymentTables
use car_flow_mvp.Payment.Model.{
  PaymentMessage, PaymentDb, payment_authorized, payment_authorization_failed, payment_captured,
  debit, credit, rental, booking_of, get_by_booking_id, insert_payment, create, write_ledger_pair,
}
use car_flow_mvp.Payment.Service.{
  StripeClient, Ids, booking_command_handlers, handle_authorize_payment_requested,
  handle_capture_payment_requested,
}
use car_flow_mvp.Payment.Ledger.{entries, empty_db as no_payments}
use car_flow_mvp.Saga.Statuses.{payment_status, was_held}
use car_flow_mvp.Saga.Machine.{System, Reach, start, user, to_payment, to_booking}
use car_flow_mvp.Saga.Agreement.{completed_is_paid, cancelled_not_charged, underway_is_held}

abbrev offer : ListingResponse
offer = record {
  status_code = 200;
  body = record {
    id = 7;
    host_id = 1;
    daily_price_cents = pos 5000;
    daily_mileage_limit = pos 200;
    booking_mode = instant;
    approval_status = approved;
  };
}

abbrev granting : StripeClient
granting = record {
  authorize = λ amount booking_id. some "pi";
  capture = λ intent amount booking_id. true;
  authorize_and_capture = λ amount booking_id. some "pi_overage";
}

abbrev refusing : StripeClient
refusing = record {
  authorize = λ amount booking_id. none;
  capture = λ intent amount booking_id. false;
  authorize_and_capture = λ amount booking_id. none;
}

abbrev first_ids : BookingMessage → Ids
first_ids message = record { payment_id = 50; event_id = 200 }

abbrev second_ids : BookingMessage → Ids
second_ids message = record { payment_id = 51; event_id = 201 }

abbrev first_fresh : PaymentMessage → ℕ
first_fresh message = 102

abbrev second_fresh : PaymentMessage → ℕ
second_fresh message = 104

abbrev ask : Operation
ask = request offer 10 100 2 7 20 23

abbrev opened : Booking
opened = record (new_booking 10 7 1 2 20 23 (pos 5000) (pos 200) instant) { version = 2 }

abbrev authorize_row : OutboxRow BookingMessage
authorize_row = record {
  id = 100;
  aggregate_type = "booking";
  aggregate_id = 10;
  message = authorize_payment_requested 10 2 (pos 15000);
}

abbrev confirmed_row : OutboxRow BookingMessage
confirmed_row = record {
  id = 102;
  aggregate_type = "booking";
  aggregate_id = 10;
  message =
      confirmed_message
        (record { booking_id = 10; renter_id = 2; host_id = 1; status = confirmed });
}

abbrev capture_row : OutboxRow BookingMessage
capture_row = record {
  id = 103;
  aggregate_type = "booking";
  aggregate_id = 10;
  message = capture_payment_requested 10 1 (pos 15000) (pos 15000);
}

abbrev payment_row : ℕ → PaymentMessage → OutboxRow PaymentMessage
payment_row event_id message = record {
  id = event_id;
  aggregate_type = "payment";
  aggregate_id = 10;
  message = message;
}

abbrev asked : System
asked = record { booking = (run ask empty_db).1; payment = no_payments }

abbrev pay : StripeClient → (BookingMessage → Ids) → OutboxRow BookingMessage → System → System
pay stripe fresh row s = record s {
  payment =
      (process PaymentTables.inbox_table (booking_command_handlers stripe fresh) (envelope_of row)
        s.payment).1;
}

abbrev react : (PaymentMessage → ℕ) → OutboxRow PaymentMessage → System → System
react fresh row s = record s {
  booking =
      (process BookingTables.inbox_table (payment_event_handlers fresh) (envelope_of row)
        s.booking).1;
}

abbrev do_for : Operation → System → System
do_for op s = record s { booking = (run op s.booking).1 }

abbrev give : Operation
give = handover 10 1 (pos 1000) (pos 90) "photo"

-- 900 miles in three days of 200 each.
abbrev bring_back : Operation
bring_back = take_back 103 10 1 (pos 1900) (pos 40) "photo"

abbrev held : System
held = pay granting first_ids authorize_row asked

abbrev agreed : System
agreed = react first_fresh (payment_row 200 (payment_authorized 10)) held

abbrev given_out : System
given_out = do_for give agreed

abbrev returned : System
returned = do_for bring_back given_out

abbrev paid : System
paid = pay granting second_ids capture_row returned

abbrev done : System
done = react second_fresh (payment_row 201 (payment_captured 10)) paid

abbrev now_confirmed : Booking
now_confirmed = record opened { version = 4; status = confirmed }

abbrev now_active : Booking
now_active = record opened {
  version = 5;
  status = active;
  start_odometer = some (pos 1000);
  start_fuel_percent = some (pos 90);
  start_photo_url = some "photo";
}

abbrev now_returned : Booking
now_returned = record now_active {
  version = 6;
  end_odometer = some (pos 1900);
  end_fuel_percent = some (pos 40);
  end_photo_url = some "photo";
  overage_cents = pos 15000;
}

abbrev now_completed : Booking
now_completed = record now_returned { version = 8; status = completed }

ask_runs : run ask empty_db ≡ (ok opened, asked.booking)
unfolding run request_booking get_vehicle create_requested insert_booking conflicts find
    append_events insert_events insert_event has_event emit_authorize_payment_requested hold_amount
    ◌*ℤ◌ ◌-ℤ◌ Repository.save replace get_by_id apply_payment_authorized
    apply_payment_authorization_failed apply_payment_captured emit_domain_event apply_transition
    Service.record_handover Service.record_return Domain.confirm_after_payment_authorized
    Domain.cancel_after_payment_authorization_failed Domain.complete_after_payment_captured
    Domain.record_handover Domain.record_return Domain.require_status Domain.rental_days
    Domain.compute_overage_cents Domain.overage_of process claim_event dispatch
    payment_event_handlers booking_command_handlers handle_authorize_payment_requested
    handle_capture_payment_requested get_by_booking_id create insert_payment PaymentTables.save
    write_ledger_pair
ask_runs = refl

authorize_sent : asked.booking.outbox ≡ [] ++ authorize_row ∷ []
unfolding run request_booking get_vehicle create_requested insert_booking conflicts find
    append_events insert_events insert_event has_event emit_authorize_payment_requested hold_amount
    ◌*ℤ◌ ◌-ℤ◌ Repository.save replace get_by_id apply_payment_authorized
    apply_payment_authorization_failed apply_payment_captured emit_domain_event apply_transition
    Service.record_handover Service.record_return Domain.confirm_after_payment_authorized
    Domain.cancel_after_payment_authorization_failed Domain.complete_after_payment_captured
    Domain.record_handover Domain.record_return Domain.require_status Domain.rental_days
    Domain.compute_overage_cents Domain.overage_of process claim_event dispatch
    payment_event_handlers booking_command_handlers handle_authorize_payment_requested
    handle_capture_payment_requested get_by_booking_id create insert_payment PaymentTables.save
    write_ledger_pair
authorize_sent = refl

held_runs :
    process PaymentTables.inbox_table
      (booking_command_handlers granting first_ids)
      (envelope_of authorize_row)
      asked.payment
    ≡ (ok tt, held.payment)
unfolding run request_booking get_vehicle create_requested insert_booking conflicts find
    append_events insert_events insert_event has_event emit_authorize_payment_requested hold_amount
    ◌*ℤ◌ ◌-ℤ◌ Repository.save replace get_by_id apply_payment_authorized
    apply_payment_authorization_failed apply_payment_captured emit_domain_event apply_transition
    Service.record_handover Service.record_return Domain.confirm_after_payment_authorized
    Domain.cancel_after_payment_authorization_failed Domain.complete_after_payment_captured
    Domain.record_handover Domain.record_return Domain.require_status Domain.rental_days
    Domain.compute_overage_cents Domain.overage_of process claim_event dispatch
    payment_event_handlers booking_command_handlers handle_authorize_payment_requested
    handle_capture_payment_requested get_by_booking_id create insert_payment PaymentTables.save
    write_ledger_pair
held_runs = refl

authorized_sent : held.payment.outbox ≡ [] ++ payment_row 200 (payment_authorized 10) ∷ []
unfolding run request_booking get_vehicle create_requested insert_booking conflicts find
    append_events insert_events insert_event has_event emit_authorize_payment_requested hold_amount
    ◌*ℤ◌ ◌-ℤ◌ Repository.save replace get_by_id apply_payment_authorized
    apply_payment_authorization_failed apply_payment_captured emit_domain_event apply_transition
    Service.record_handover Service.record_return Domain.confirm_after_payment_authorized
    Domain.cancel_after_payment_authorization_failed Domain.complete_after_payment_captured
    Domain.record_handover Domain.record_return Domain.require_status Domain.rental_days
    Domain.compute_overage_cents Domain.overage_of process claim_event dispatch
    payment_event_handlers booking_command_handlers handle_authorize_payment_requested
    handle_capture_payment_requested get_by_booking_id create insert_payment PaymentTables.save
    write_ledger_pair
authorized_sent = refl

agreed_runs :
    process BookingTables.inbox_table
      (payment_event_handlers first_fresh)
      (envelope_of (payment_row 200 (payment_authorized 10)))
      held.booking
    ≡ (ok tt, agreed.booking)
unfolding run request_booking get_vehicle create_requested insert_booking conflicts find
    append_events insert_events insert_event has_event emit_authorize_payment_requested hold_amount
    ◌*ℤ◌ ◌-ℤ◌ Repository.save replace get_by_id apply_payment_authorized
    apply_payment_authorization_failed apply_payment_captured emit_domain_event apply_transition
    Service.record_handover Service.record_return Domain.confirm_after_payment_authorized
    Domain.cancel_after_payment_authorization_failed Domain.complete_after_payment_captured
    Domain.record_handover Domain.record_return Domain.require_status Domain.rental_days
    Domain.compute_overage_cents Domain.overage_of process claim_event dispatch
    payment_event_handlers booking_command_handlers handle_authorize_payment_requested
    handle_capture_payment_requested get_by_booking_id create insert_payment PaymentTables.save
    write_ledger_pair
agreed_runs = refl

give_runs : run give agreed.booking ≡ (ok now_active, given_out.booking)
unfolding run request_booking get_vehicle create_requested insert_booking conflicts find
    append_events insert_events insert_event has_event emit_authorize_payment_requested hold_amount
    ◌*ℤ◌ ◌-ℤ◌ Repository.save replace get_by_id apply_payment_authorized
    apply_payment_authorization_failed apply_payment_captured emit_domain_event apply_transition
    Service.record_handover Service.record_return Domain.confirm_after_payment_authorized
    Domain.cancel_after_payment_authorization_failed Domain.complete_after_payment_captured
    Domain.record_handover Domain.record_return Domain.require_status Domain.rental_days
    Domain.compute_overage_cents Domain.overage_of process claim_event dispatch
    payment_event_handlers booking_command_handlers handle_authorize_payment_requested
    handle_capture_payment_requested get_by_booking_id create insert_payment PaymentTables.save
    write_ledger_pair
give_runs = refl

bring_back_runs : run bring_back given_out.booking ≡ (ok now_returned, returned.booking)
unfolding run request_booking get_vehicle create_requested insert_booking conflicts find
    append_events insert_events insert_event has_event emit_authorize_payment_requested hold_amount
    ◌*ℤ◌ ◌-ℤ◌ Repository.save replace get_by_id apply_payment_authorized
    apply_payment_authorization_failed apply_payment_captured emit_domain_event apply_transition
    Service.record_handover Service.record_return Domain.confirm_after_payment_authorized
    Domain.cancel_after_payment_authorization_failed Domain.complete_after_payment_captured
    Domain.record_handover Domain.record_return Domain.require_status Domain.rental_days
    Domain.compute_overage_cents Domain.overage_of process claim_event dispatch
    payment_event_handlers booking_command_handlers handle_authorize_payment_requested
    handle_capture_payment_requested get_by_booking_id create insert_payment PaymentTables.save
    write_ledger_pair
bring_back_runs = refl

capture_sent : returned.booking.outbox ≡ (authorize_row ∷ confirmed_row ∷ []) ++ capture_row ∷ []
unfolding run request_booking get_vehicle create_requested insert_booking conflicts find
    append_events insert_events insert_event has_event emit_authorize_payment_requested hold_amount
    ◌*ℤ◌ ◌-ℤ◌ Repository.save replace get_by_id apply_payment_authorized
    apply_payment_authorization_failed apply_payment_captured emit_domain_event apply_transition
    Service.record_handover Service.record_return Domain.confirm_after_payment_authorized
    Domain.cancel_after_payment_authorization_failed Domain.complete_after_payment_captured
    Domain.record_handover Domain.record_return Domain.require_status Domain.rental_days
    Domain.compute_overage_cents Domain.overage_of process claim_event dispatch
    payment_event_handlers booking_command_handlers handle_authorize_payment_requested
    handle_capture_payment_requested get_by_booking_id create insert_payment PaymentTables.save
    write_ledger_pair
capture_sent = refl

paid_runs :
    process PaymentTables.inbox_table
      (booking_command_handlers granting second_ids)
      (envelope_of capture_row)
      returned.payment
    ≡ (ok tt, paid.payment)
unfolding run request_booking get_vehicle create_requested insert_booking conflicts find
    append_events insert_events insert_event has_event emit_authorize_payment_requested hold_amount
    ◌*ℤ◌ ◌-ℤ◌ Repository.save replace get_by_id apply_payment_authorized
    apply_payment_authorization_failed apply_payment_captured emit_domain_event apply_transition
    Service.record_handover Service.record_return Domain.confirm_after_payment_authorized
    Domain.cancel_after_payment_authorization_failed Domain.complete_after_payment_captured
    Domain.record_handover Domain.record_return Domain.require_status Domain.rental_days
    Domain.compute_overage_cents Domain.overage_of process claim_event dispatch
    payment_event_handlers booking_command_handlers handle_authorize_payment_requested
    handle_capture_payment_requested get_by_booking_id create insert_payment PaymentTables.save
    write_ledger_pair
paid_runs = refl

captured_sent :
    paid.payment.outbox
    ≡ (payment_row 200 (payment_authorized 10) ∷ []) ++ payment_row 201 (payment_captured 10) ∷ []
unfolding run request_booking get_vehicle create_requested insert_booking conflicts find
    append_events insert_events insert_event has_event emit_authorize_payment_requested hold_amount
    ◌*ℤ◌ ◌-ℤ◌ Repository.save replace get_by_id apply_payment_authorized
    apply_payment_authorization_failed apply_payment_captured emit_domain_event apply_transition
    Service.record_handover Service.record_return Domain.confirm_after_payment_authorized
    Domain.cancel_after_payment_authorization_failed Domain.complete_after_payment_captured
    Domain.record_handover Domain.record_return Domain.require_status Domain.rental_days
    Domain.compute_overage_cents Domain.overage_of process claim_event dispatch
    payment_event_handlers booking_command_handlers handle_authorize_payment_requested
    handle_capture_payment_requested get_by_booking_id create insert_payment PaymentTables.save
    write_ledger_pair
captured_sent = refl

done_runs :
    process BookingTables.inbox_table
      (payment_event_handlers second_fresh)
      (envelope_of (payment_row 201 (payment_captured 10)))
      paid.booking
    ≡ (ok tt, done.booking)
unfolding run request_booking get_vehicle create_requested insert_booking conflicts find
    append_events insert_events insert_event has_event emit_authorize_payment_requested hold_amount
    ◌*ℤ◌ ◌-ℤ◌ Repository.save replace get_by_id apply_payment_authorized
    apply_payment_authorization_failed apply_payment_captured emit_domain_event apply_transition
    Service.record_handover Service.record_return Domain.confirm_after_payment_authorized
    Domain.cancel_after_payment_authorization_failed Domain.complete_after_payment_captured
    Domain.record_handover Domain.record_return Domain.require_status Domain.rental_days
    Domain.compute_overage_cents Domain.overage_of process claim_event dispatch
    payment_event_handlers booking_command_handlers handle_authorize_payment_requested
    handle_capture_payment_requested get_by_booking_id create insert_payment PaymentTables.save
    write_ledger_pair
done_runs = refl

confirmed_found : find booking_key 10 agreed.booking.bookings ≡ some now_confirmed
unfolding run request_booking get_vehicle create_requested insert_booking conflicts find
    append_events insert_events insert_event has_event emit_authorize_payment_requested hold_amount
    ◌*ℤ◌ ◌-ℤ◌ Repository.save replace get_by_id apply_payment_authorized
    apply_payment_authorization_failed apply_payment_captured emit_domain_event apply_transition
    Service.record_handover Service.record_return Domain.confirm_after_payment_authorized
    Domain.cancel_after_payment_authorization_failed Domain.complete_after_payment_captured
    Domain.record_handover Domain.record_return Domain.require_status Domain.rental_days
    Domain.compute_overage_cents Domain.overage_of process claim_event dispatch
    payment_event_handlers booking_command_handlers handle_authorize_payment_requested
    handle_capture_payment_requested get_by_booking_id create insert_payment PaymentTables.save
    write_ledger_pair
confirmed_found = refl

completed_found : find booking_key 10 done.booking.bookings ≡ some now_completed
unfolding run request_booking get_vehicle create_requested insert_booking conflicts find
    append_events insert_events insert_event has_event emit_authorize_payment_requested hold_amount
    ◌*ℤ◌ ◌-ℤ◌ Repository.save replace get_by_id apply_payment_authorized
    apply_payment_authorization_failed apply_payment_captured emit_domain_event apply_transition
    Service.record_handover Service.record_return Domain.confirm_after_payment_authorized
    Domain.cancel_after_payment_authorization_failed Domain.complete_after_payment_captured
    Domain.record_handover Domain.record_return Domain.require_status Domain.rental_days
    Domain.compute_overage_cents Domain.overage_of process claim_event dispatch
    payment_event_handlers booking_command_handlers handle_authorize_payment_requested
    handle_capture_payment_requested get_by_booking_id create insert_payment PaymentTables.save
    write_ledger_pair
completed_found = refl

asked-Reach : Reach asked
asked-Reach = user ask opened start refl ask_runs

agreed-Reach : Reach agreed
agreed-Reach =
    to_booking first_fresh (payment_row 200 (payment_authorized 10)) [] []
      (to_payment granting first_ids authorize_row [] [] asked-Reach authorize_sent held_runs)
      authorized_sent agreed_runs

done-Reach : Reach done
done-Reach =
    to_booking second_fresh (payment_row 201 (payment_captured 10))
      (payment_row 200 (payment_authorized 10) ∷ []) []
      (to_payment granting second_ids capture_row (authorize_row ∷ confirmed_row ∷ []) []
        (user bring_back now_returned (user give now_active agreed-Reach refl give_runs) refl
          bring_back_runs)
        capture_sent paid_runs)
      captured_sent done_runs

completed_is_paid_example : entries 10 debit rental done.payment.ledger ≡ 1
completed_is_paid_example = completed_is_paid 10 now_completed done-Reach completed_found debit refl

underway_is_held_example : was_held (payment_status 10 agreed.payment) ≡ true
underway_is_held_example = underway_is_held 10 now_confirmed agreed-Reach confirmed_found (inl refl)

abbrev refused : System
refused = pay refusing first_ids authorize_row asked

abbrev dropped : System
dropped = react first_fresh (payment_row 200 (payment_authorization_failed 10)) refused

abbrev now_cancelled : Booking
now_cancelled = record opened { version = 4; status = cancelled }

refused_runs :
    process PaymentTables.inbox_table
      (booking_command_handlers refusing first_ids)
      (envelope_of authorize_row)
      asked.payment
    ≡ (ok tt, refused.payment)
unfolding run request_booking get_vehicle create_requested insert_booking conflicts find
    append_events insert_events insert_event has_event emit_authorize_payment_requested hold_amount
    ◌*ℤ◌ ◌-ℤ◌ Repository.save replace get_by_id apply_payment_authorized
    apply_payment_authorization_failed apply_payment_captured emit_domain_event apply_transition
    Service.record_handover Service.record_return Domain.confirm_after_payment_authorized
    Domain.cancel_after_payment_authorization_failed Domain.complete_after_payment_captured
    Domain.record_handover Domain.record_return Domain.require_status Domain.rental_days
    Domain.compute_overage_cents Domain.overage_of process claim_event dispatch
    payment_event_handlers booking_command_handlers handle_authorize_payment_requested
    handle_capture_payment_requested get_by_booking_id create insert_payment PaymentTables.save
    write_ledger_pair
refused_runs = refl

refused_sent : refused.payment.outbox ≡ [] ++ payment_row 200 (payment_authorization_failed 10) ∷ []
unfolding run request_booking get_vehicle create_requested insert_booking conflicts find
    append_events insert_events insert_event has_event emit_authorize_payment_requested hold_amount
    ◌*ℤ◌ ◌-ℤ◌ Repository.save replace get_by_id apply_payment_authorized
    apply_payment_authorization_failed apply_payment_captured emit_domain_event apply_transition
    Service.record_handover Service.record_return Domain.confirm_after_payment_authorized
    Domain.cancel_after_payment_authorization_failed Domain.complete_after_payment_captured
    Domain.record_handover Domain.record_return Domain.require_status Domain.rental_days
    Domain.compute_overage_cents Domain.overage_of process claim_event dispatch
    payment_event_handlers booking_command_handlers handle_authorize_payment_requested
    handle_capture_payment_requested get_by_booking_id create insert_payment PaymentTables.save
    write_ledger_pair
refused_sent = refl

dropped_runs :
    process BookingTables.inbox_table
      (payment_event_handlers first_fresh)
      (envelope_of (payment_row 200 (payment_authorization_failed 10)))
      refused.booking
    ≡ (ok tt, dropped.booking)
unfolding run request_booking get_vehicle create_requested insert_booking conflicts find
    append_events insert_events insert_event has_event emit_authorize_payment_requested hold_amount
    ◌*ℤ◌ ◌-ℤ◌ Repository.save replace get_by_id apply_payment_authorized
    apply_payment_authorization_failed apply_payment_captured emit_domain_event apply_transition
    Service.record_handover Service.record_return Domain.confirm_after_payment_authorized
    Domain.cancel_after_payment_authorization_failed Domain.complete_after_payment_captured
    Domain.record_handover Domain.record_return Domain.require_status Domain.rental_days
    Domain.compute_overage_cents Domain.overage_of process claim_event dispatch
    payment_event_handlers booking_command_handlers handle_authorize_payment_requested
    handle_capture_payment_requested get_by_booking_id create insert_payment PaymentTables.save
    write_ledger_pair
dropped_runs = refl

cancelled_found : find booking_key 10 dropped.booking.bookings ≡ some now_cancelled
unfolding run request_booking get_vehicle create_requested insert_booking conflicts find
    append_events insert_events insert_event has_event emit_authorize_payment_requested hold_amount
    ◌*ℤ◌ ◌-ℤ◌ Repository.save replace get_by_id apply_payment_authorized
    apply_payment_authorization_failed apply_payment_captured emit_domain_event apply_transition
    Service.record_handover Service.record_return Domain.confirm_after_payment_authorized
    Domain.cancel_after_payment_authorization_failed Domain.complete_after_payment_captured
    Domain.record_handover Domain.record_return Domain.require_status Domain.rental_days
    Domain.compute_overage_cents Domain.overage_of process claim_event dispatch
    payment_event_handlers booking_command_handlers handle_authorize_payment_requested
    handle_capture_payment_requested get_by_booking_id create insert_payment PaymentTables.save
    write_ledger_pair
cancelled_found = refl

dropped-Reach : Reach dropped
dropped-Reach =
    to_booking first_fresh (payment_row 200 (payment_authorization_failed 10)) [] []
      (to_payment refusing first_ids authorize_row [] [] asked-Reach authorize_sent refused_runs)
      refused_sent dropped_runs

cancelled_not_charged_example : entries 10 credit rental dropped.payment.ledger ≡ 0
cancelled_not_charged_example =
    cancelled_not_charged 10 now_cancelled dropped-Reach cancelled_found credit refl
