-- ===== src/Tests/Endpoints.antt =====
-- Concrete requests to the booking service's endpoints, and concrete runs of both consumers.
use car_flow_mvp.Base.{ℕ, Bool, ◌≡◌, refl, true, none, some, String, List, [], ◌∷◌, ◌++◌, length}
use car_flow_mvp.Base.Int.{ℤ, ltb_ℤ, pos, ◌+ℤ◌, ◌*ℤ◌}
use car_flow_mvp.Base.Result.{ok, err}
use car_flow_mvp.Base.Table.{find, replace}
use car_flow_mvp.Shared.Outbox.{Envelope}
use car_flow_mvp.Shared.Http.{Response}
use car_flow_mvp.Shared.Auth.{Claims, renter, host, admin, same_role, require_role}
use car_flow_mvp.Shared.Consumer.{claim_event, dispatch, process, run_consumer}
use car_flow_mvp.Shared.Idempotency.{select_key, make_guard, store, respond_idempotently}
use car_flow_mvp.Shared.Endpoint.{run_endpoint, serve}
use car_flow_mvp.Shared.Paging.{answer_page}
use car_flow_mvp.Booking.Domain
use car_flow_mvp.Booking.Domain.{instant, rejected, require_status}
use car_flow_mvp.Booking.Model.{
  Booking, BookingResponse, BookingDb, key_table, authorize_payment_requested, confirmed_message,
  BookingMessage,
}
use car_flow_mvp.Booking.Model
use car_flow_mvp.Booking.ListingClient.{approved, ListingResponse, get_vehicle}
use car_flow_mvp.Booking.Repository
use car_flow_mvp.Booking.Repository.{
  booking_key, get_by_id, conflicts, insert_booking, new_booking, create_requested, has_event,
  insert_event, insert_events, append_events,
}
use car_flow_mvp.Booking.Service.{
  request_booking, emit_authorize_payment_requested, hold_amount, emit_domain_event,
  apply_payment_authorized,
}
use car_flow_mvp.Booking.Invariant.Begun.{empty_db}
use car_flow_mvp.Booking.Consumers.{
  payment_event_handlers, payment_events_redelivered, late_authorization_blocks,
}
use car_flow_mvp.Booking.Routes.{booking_response, list_bookings}
use car_flow_mvp.Booking.Routes.Authority.{
  accepting, handing_over, endpoint_of, not_yours, stranger_refused,
}
use car_flow_mvp.Shared.Endpoint.Answered.{HasKey}
use car_flow_mvp.Booking.Routes.Admitted.{asker, IsSensible, answered_request}
use car_flow_mvp.Booking.Routes.Interleaved.{Sent, serve_all, answer_is_final}
use car_flow_mvp.Booking.Routes.Untouched.{IsUntouched, booking-IsUntouched}
use car_flow_mvp.Booking.Routes.Paging.{list_bookings-page}
use car_flow_mvp.Booking.Routes.Retry.{Request, creating, of_host, target, booking_request_repeated}
use car_flow_mvp.Payment.Model.{PaymentMessage, payment_authorized}

abbrev listed_car : ListingResponse
listed_car = record {
  status_code = 200;
  body = record {
    id = 7;
    host_id = 1;
    daily_price_cents = pos 5000;
    daily_mileage_limit = pos 200;
    booking_mode = instant;
    approval_status = approved;
  };
}

abbrev whole_body : String → String
whole_body body = body

abbrev a_renter : Claims
a_renter = record { sub = 2; role = renter }

abbrev a_host : Claims
a_host = record { sub = 9; role = host }

abbrev an_admin : Claims
an_admin = record { sub = 8; role = admin }

abbrev stored_booking : Booking
stored_booking = record (new_booking 10 7 1 2 20 23 (pos 5000) (pos 200) instant) { version = 2 }

abbrev other_booking : Booking
other_booking = record (new_booking 11 7 1 3 24 25 (pos 5000) (pos 200) instant) { version = 2 }

abbrev stored_db : BookingDb
stored_db = record {
  bookings = stored_booking ∷ other_booking ∷ [];
  events = [];
  outbox = [];
  inbox = [];
  keys = [];
}

stored_found : find booking_key 10 stored_db.bookings ≡ some stored_booking
unfolding find
stored_found = refl

no_key : select_key "9" "key" stored_db.keys ≡ none
unfolding select_key
no_key = refl

-- Host 9 tries to hand over a car of host 1.
stranger_refused_example :
    serve key_table whole_body
      (endpoint_of (handing_over 10 (pos 1000) (pos 90) "photo"))
      a_host
      (some "key")
      "9"
      "body"
      5
      stored_db
    ≡ (err not_yours, stored_db)
stranger_refused_example =
    stranger_refused whole_body (handing_over 10 (pos 1000) (pos 90) "photo") a_host "9" "key"
      "body" 5 stored_booking stored_db refl no_key refl refl stored_found refl

-- A driver that sends each number below 2^63 as it is.
abbrev below_bigint : ℤ → Bool
below_bigint n = ltb_ℤ n (pos 9223372036854775808)

list_bookings-page_example :
    list_bookings below_bigint an_admin (pos 1) (pos 0) stored_db
    ≡ (answer_page booking_response (pos 1) (pos 0) stored_db.bookings, stored_db)
unfolding ◌+ℤ◌
list_bookings-page_example = list_bookings-page below_bigint an_admin (pos 1) (pos 0) stored_db refl

abbrev a_request : Request
a_request = creating listed_car 10 100 7 20 23

abbrev after_request : BookingDb
after_request =
    (serve key_table whole_body (target a_request) a_renter (some "key") "2" "body" 5 empty_db).1

abbrev created_response : Response BookingResponse
created_response = record { status_code = 201; content = booking_response stored_booking }

request_answered :
    (serve key_table whole_body (target a_request) a_renter (some "key") "2" "body" 5 empty_db).0
    ≡ ok created_response
unfolding serve run_endpoint make_guard select_key require_role respond_idempotently store
    request_booking get_vehicle create_requested insert_booking conflicts find append_events
    insert_events insert_event has_event emit_authorize_payment_requested hold_amount ◌*ℤ◌
    Repository.save replace
request_answered = refl

-- The second time, the dates are still the same car's, and no second booking is tried.
booking_request_repeated_example :
    serve key_table whole_body (target a_request) a_renter (some "key") "2" "body" 6 after_request
    ≡ (ok created_response, after_request)
booking_request_repeated_example =
    booking_request_repeated whole_body a_request a_renter "2" "key" "body" 5 6 empty_db
      after_request refl refl request_answered refl

-- Who asked had a key, is a renter, and asked for at least one night.
answered_request_example :
    HasKey (some "key") × (same_role a_renter.role (asker a_request) ≡ true) × IsSensible a_request
answered_request_example =
    answered_request whole_body a_request a_renter (some "key") "2" "body" 5 empty_db
      request_answered

abbrev other_host : Claims
other_host = record { sub = 3; role = host }

-- A host of other cars tries to accept the booking.
booking-IsUntouched_example :
    IsUntouched stored_booking stored_db
      (serve key_table whole_body
        (target (of_host (accepting 102 10)))
        other_host
        (some "key")
        "3"
        "body"
        5
        stored_db).1
booking-IsUntouched_example =
    booking-IsUntouched whole_body (of_host (accepting 102 10)) other_host (some "key") "3" "body" 5
      stored_booking stored_db stored_found refl

-- In between another renter asks for the same days with the same key, and a host accepts a booking.
abbrev requests_between : List (Sent String)
requests_between =
    record {
      asked = creating listed_car 11 101 7 21 22;
      claims = a_renter;
      key = some "key";
      consumer_id = "3";
      body = "body";
      now = 6;
    }
    ∷ record {
      asked = of_host (accepting 102 10);
      claims = a_host;
      key = some "host key";
      consumer_id = "1";
      body = "";
      now = 7;
    }
    ∷ []

answer_is_final_example :
    serve key_table whole_body
      (target a_request)
      a_renter
      (some "key")
      "2"
      "body"
      8
      (serve_all whole_body requests_between after_request)
    ≡ (ok created_response, serve_all whole_body requests_between after_request)
answer_is_final_example =
    answer_is_final whole_body a_request a_renter "2" "key" "body" 5 8 requests_between empty_db
      request_answered

abbrev fresh_id : PaymentMessage → ℕ
fresh_id message = 300

abbrev payment_events : List (Envelope PaymentMessage)
payment_events = record { event_id = 200; message = payment_authorized 10 } ∷ []

abbrev later_events : List (Envelope PaymentMessage)
later_events = record { event_id = 201; message = payment_authorized 11 } ∷ []

events_handled :
    (run_consumer Model.inbox_table (payment_event_handlers fresh_id) payment_events stored_db).0
    ≡ length payment_events
unfolding run_consumer process claim_event dispatch payment_event_handlers apply_payment_authorized
    get_by_id find Domain.confirm_after_payment_authorized require_status append_events
    insert_events insert_event has_event emit_domain_event Repository.save replace
events_handled = refl

payment_events_redelivered_example :
    let db' =
      (run_consumer Model.inbox_table
        (payment_event_handlers fresh_id)
        payment_events
        stored_db).1 in
    (run_consumer Model.inbox_table
      (payment_event_handlers fresh_id)
      (payment_events ++ later_events)
      db').1
    ≡ (run_consumer Model.inbox_table (payment_event_handlers fresh_id) later_events db').1
payment_events_redelivered_example =
    payment_events_redelivered fresh_id payment_events later_events stored_db events_handled

-- The host accepted the booking and rejected it before the payment service answered.
abbrev rejected_booking : Booking
rejected_booking = record stored_booking { version = 4; status = rejected }

abbrev rejected_db : BookingDb
rejected_db = record stored_db { bookings = rejected_booking ∷ [] }

rejected_found : find booking_key 10 rejected_db.bookings ≡ some rejected_booking
unfolding find
rejected_found = refl

late_authorization_blocks_example :
    run_consumer Model.inbox_table
      (payment_event_handlers fresh_id)
      (payment_events ++ later_events)
      rejected_db
    ≡ (0, rejected_db)
late_authorization_blocks_example =
    late_authorization_blocks fresh_id 200 10 rejected_booking later_events rejected_db refl
      rejected_found refl
