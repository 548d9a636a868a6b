-- ===== src/Booking/Routes.antt =====
-- services/booking/routes.py: the endpoints as functions of the caller's claims, the request and the
-- database. `now` is the time of the request, and the body of a request is what its hash is of.
pub mod Authority
pub mod Paging
pub mod Retry
pub mod Admitted
pub mod Interleaved
pub mod Untouched
use Prim.Native.String.{◌++◌ as str_append}
use car_flow_mvp.Base.{
  ℕ, ◌+◌, Bool, true, false, ◌&&◌, not, Option, none, some, String, List, ⊤, ltb, leb, length, take,
  if◌then◌else◌,
}
use car_flow_mvp.Base.Int.{ℤ, pos, leb_ℤ, ◌+ℤ◌}
use mathlib.Core.List.{map}
use car_flow_mvp.Base.Result.{Result, ok, err}
use car_flow_mvp.Base.Exec.{Exec, pure, lift, catching, transact, ◌>>=◌, ◌>>◌}
use car_flow_mvp.Shared.Http.{Failure, http_exception, server_error, Response}
use car_flow_mvp.Shared.Auth.{renter, host, admin, Role, Claims, require_role}
use car_flow_mvp.Shared.Paging.{Page, page_of}
use car_flow_mvp.Shared.Endpoint.{Endpoint, text_fits}
use car_flow_mvp.Booking.Domain.{
  BookingStatus, requested, confirmed, active, completed, cancelled, rejected, DomainError,
  not_request_mode, unexpected_status, start_odometer_missing,
}
use car_flow_mvp.Booking.Model.{Booking, BookingResponse, BookingDb, key_table}
use car_flow_mvp.Booking.ListingClient.{ListingResponse}
use car_flow_mvp.Booking.Repository.{
  BookingError, booking_not_found, not_booking_party, vehicle_not_bookable, overlapping_booking,
  concurrent_booking_update, upstream_error, invalid_date_range, domain_error, Action,
}
use car_flow_mvp.Booking.Service.{
  request_booking, accept_booking_request, reject_booking_request, list_all_bookings,
  get_booking_for_viewer, record_handover, record_return,
}

-- `_booking_response`
abbrev pub booking_response : Booking → BookingResponse
booking_response booking = record {
  id = booking.id;
  vehicle_id = booking.vehicle_id;
  host_id = booking.host_id;
  renter_id = booking.renter_id;
  start_date = booking.start_date;
  end_date = booking.end_date;
  daily_price_cents = booking.daily_price_cents;
  daily_mileage_limit = booking.daily_mileage_limit;
  booking_mode = booking.booking_mode;
  status = booking.status;
  start_odometer = booking.start_odometer;
  end_odometer = booking.end_odometer;
  start_fuel_percent = booking.start_fuel_percent;
  end_fuel_percent = booking.end_fuel_percent;
  start_photo_url = booking.start_photo_url;
  end_photo_url = booking.end_photo_url;
  overage_cents = booking.overage_cents;
}

abbrev pub status_text : BookingStatus → String
status_text requested = "requested"
status_text confirmed = "confirmed"
status_text active = "active"
status_text completed = "completed"
status_text cancelled = "cancelled"
status_text rejected = "rejected"

-- `except InvalidBookingTransitionError as exc`, with `str(exc)`; a TypeError is not caught.
abbrev pub transition_failure : DomainError → Failure
transition_failure not_request_mode = http_exception 409 "booking is not in request-to-book mode"
transition_failure (unexpected_status status expected) = http_exception 409 (
    str_append "cannot do this from status '" (
      str_append (status_text status)
        (str_append "' (expected '" (str_append (status_text expected) "')"))))
transition_failure start_odometer_missing = server_error

-- The `except` clauses of the endpoints of a stored booking.
abbrev pub stored_failure : BookingError → Failure
stored_failure booking_not_found = http_exception 404 "booking not found"
stored_failure not_booking_party = http_exception 403 "not your booking"
stored_failure (domain_error e) = transition_failure e
stored_failure _ = server_error

-- The `except` clauses of `create`.
abbrev pub create_failure : BookingError → Failure
create_failure vehicle_not_bookable = http_exception 404 "vehicle not bookable"
create_failure overlapping_booking = http_exception 409 "vehicle is already booked for these dates"
create_failure _ = server_error

abbrev pub respond : Booking → Exec BookingDb Failure BookingResponse
respond booking = pure (booking_response booking)

-- The `build` of the endpoints of a stored booking.
abbrev pub stored_build : Action Booking → Exec BookingDb Failure BookingResponse
stored_build operation = do booking ← catching stored_failure operation; respond booking

-- The `build` of `create`; its `session.rollback()` comes before a raise, after which the session is
-- rolled back anyway.
abbrev pub create_build : Action Booking → Exec BookingDb Failure BookingResponse
create_build operation = do booking ← catching create_failure operation; respond booking

abbrev pub BookingEndpoint : Type 0
BookingEndpoint = Endpoint BookingDb BookingResponse

abbrev pub create :
    ListingResponse → (booking_id event_id vehicle_id start_date end_date : ℕ) → BookingEndpoint
create response booking_id event_id vehicle_id start_date end_date = record {
  allowed_role = renter;
  status_code = 201;
  payload_valid = ltb start_date end_date;
  build = λ claims.
      create_build
        (request_booking response booking_id event_id claims.sub vehicle_id start_date end_date);
}

abbrev pub accept : (event_id booking_id : ℕ) → BookingEndpoint
accept event_id booking_id = record {
  allowed_role = host;
  status_code = 200;
  payload_valid = true;
  build = λ claims. stored_build (accept_booking_request event_id booking_id claims.sub);
}

abbrev pub reject : (event_id booking_id : ℕ) → BookingEndpoint
reject event_id booking_id = record {
  allowed_role = host;
  status_code = 200;
  payload_valid = true;
  build = λ claims. stored_build (reject_booking_request event_id booking_id claims.sub);
}

-- The fields of `HandoverRequest` and of `ReturnRequest`.
abbrev pub inspection_valid : ℤ → ℤ → String → Bool
inspection_valid odometer fuel_percent photo_url =
    leb_ℤ (pos 0) odometer
    && (leb_ℤ (pos 0) fuel_percent && leb_ℤ fuel_percent (pos 100))
    && text_fits 512 photo_url

abbrev pub handover : ℕ → ℤ → ℤ → String → BookingEndpoint
handover booking_id odometer fuel_percent photo_url = record {
  allowed_role = host;
  status_code = 200;
  payload_valid = inspection_valid odometer fuel_percent photo_url;
  build = λ claims.
      stored_build (record_handover booking_id claims.sub odometer fuel_percent photo_url);
}

abbrev pub return_car : (event_id booking_id : ℕ) → ℤ → ℤ → String → BookingEndpoint
return_car event_id booking_id odometer fuel_percent photo_url = record {
  allowed_role = host;
  status_code = 200;
  payload_valid = inspection_valid odometer fuel_percent photo_url;
  build = λ claims.
      stored_build (record_return event_id booking_id claims.sub odometer fuel_percent photo_url);
}

abbrev pub ListBookingsResponse : Type 0
ListBookingsResponse = Page BookingResponse

unfoldable pub list_bookings :
    (can_send : ℤ → Bool)
    → Claims
    → (limit offset : ℤ) → Exec BookingDb Failure ListBookingsResponse
list_bookings can_send claims limit offset = do
  lift (require_role claims admin)
  bookings ← catching stored_failure (list_all_bookings can_send (limit +ℤ pos 1) offset)
  pure (page_of booking_response limit offset bookings)

unfoldable pub get_booking : Claims → ℕ → Exec BookingDb Failure BookingResponse
get_booking claims booking_id = do
  booking ← catching stored_failure (get_booking_for_viewer booking_id claims.sub claims.role)
  respond booking
