-- ===== src/Listing/Routes.antt =====
-- services/listing/routes.py: the endpoints as functions of the caller's claims, the payload and the
-- database. What `uuid4` returns is an argument.
pub mod Repetition
pub mod Listed
pub mod Owner
pub mod Stranger
use Prim.Native.String.{◌++◌ as str_append}
use text.Mathlib.Text.{◌==◌ as str_eq}
use car_flow_mvp.Base.{ℕ, ◌+◌, Bool, true, not, String}
use car_flow_mvp.Base.Int.{ℤ, pos, ◌+ℤ◌}
use car_flow_mvp.Base.Exec.{Exec, pure, lift, raise_if, catching, ◌>>=◌, ◌>>◌}
use car_flow_mvp.Shared.Http.{Failure, http_exception, server_error}
use car_flow_mvp.Shared.Auth.{host, admin, Claims, require_role}
use car_flow_mvp.Shared.Paging.{Page, page_of}
use car_flow_mvp.Shared.Endpoint.{Endpoint}
use car_flow_mvp.Booking.ListingClient.{ApprovalStatus, pending, approved, declined}
use car_flow_mvp.Listing.Schemas.{
  VehicleResponse, CreateVehicleRequest, VehicleFields, AvailabilityBlockResponse, ListingBody,
  vehicle_body, block_body, create_valid, update_valid, block_valid,
}
use car_flow_mvp.Listing.{
  ListingError, vehicle_not_found, not_vehicle_owner, overlapping_availability_block,
  invalid_approval_transition, AvailabilityBlock, Vehicle, ListingDb, Action, create_vehicle,
  get_vehicle_for_viewer, update_vehicle, approve_vehicle, reject_vehicle, list_approved_vehicles,
  add_availability_block,
}

-- `_vehicle_response`
abbrev pub vehicle_response : {C : Type 0} → Vehicle C → VehicleResponse C
vehicle_response vehicle = record {
  id = vehicle.id;
  host_id = vehicle.host_id;
  make = vehicle.make;
  model = vehicle.model;
  year = vehicle.year;
  daily_price_cents = vehicle.daily_price_cents;
  daily_mileage_limit = vehicle.daily_mileage_limit;
  booking_mode = vehicle.booking_mode;
  approval_status = vehicle.approval_status;
  latitude = vehicle.latitude;
  longitude = vehicle.longitude;
}

abbrev pub block_response : AvailabilityBlock → AvailabilityBlockResponse
block_response block = record {
  id = block.id;
  vehicle_id = block.vehicle_id;
  start_date = block.start_date;
  end_date = block.end_date;
}

abbrev pub approval_text : ApprovalStatus → String
approval_text pending = "pending"
approval_text approved = "approved"
approval_text declined = "rejected"

-- The `except` clauses of `get_vehicle` and `update`.
abbrev pub owner_failure : ListingError → Failure
owner_failure vehicle_not_found = http_exception 404 "vehicle not found"
owner_failure not_vehicle_owner = http_exception 403 "not your vehicle"
owner_failure _ = server_error

-- The `except` clauses of `approve` and `reject`, by the verb in the text.
abbrev pub decision_failure : String → ListingError → Failure
decision_failure verb vehicle_not_found = http_exception 404 "vehicle not found"
decision_failure verb (invalid_approval_transition status) = http_exception 409 (
    str_append "cannot "
      (str_append verb (str_append " from status '" (str_append (approval_text status) "'"))))
decision_failure verb _ = server_error

-- The `except` clauses of `create_availability_block`; its `session.rollback()` comes before a raise,
-- after which the session is rolled back anyway.
abbrev pub block_failure : ListingError → Failure
block_failure overlapping_availability_block =
    http_exception 409 "availability block overlaps an existing one"
block_failure e = owner_failure e

abbrev pub ListingEndpoint : Type 0 → Type 0
ListingEndpoint C = Endpoint (ListingDb C) (ListingBody C)

-- The body of a vehicle's answer.
abbrev pub of_vehicle : {C : Type 0} → Vehicle C → ListingBody C
of_vehicle vehicle = vehicle_body (vehicle_response vehicle)

abbrev pub of_block : {C : Type 0} → AvailabilityBlock → ListingBody C
of_block block = block_body (block_response block)

-- A `build` whose operation is called in a `try` with these `except` clauses.
abbrev pub built :
    {C A : Type 0}
    → (ListingError → Failure)
    → (A → ListingBody C)
    → Action C A
    → Exec (ListingDb C) Failure (ListingBody C)
built failure body operation = do value ← catching failure operation; pure (body value)

module _ {C : Type 0} where
  module _ (is_latitude is_longitude : C → Bool) where
    -- `create` has no `except` clause.
    abbrev pub create : ℕ → CreateVehicleRequest C → ListingEndpoint C
    create vehicle_id payload = record {
      allowed_role = host;
      status_code = 201;
      payload_valid = create_valid is_latitude is_longitude payload;
      build = λ claims.
          built (λ e. server_error) of_vehicle
            (create_vehicle vehicle_id claims.sub payload.make payload.model payload.year
              payload.daily_price_cents payload.daily_mileage_limit payload.booking_mode
              payload.latitude payload.longitude);
    }

    abbrev pub update : (event_id vehicle_id : ℕ) → VehicleFields C → ListingEndpoint C
    update event_id vehicle_id payload = record {
      allowed_role = host;
      status_code = 200;
      payload_valid = update_valid is_latitude is_longitude payload;
      build = λ claims.
          built owner_failure of_vehicle (update_vehicle event_id vehicle_id claims.sub payload);
    }

  abbrev pub approve : (event_id vehicle_id : ℕ) → ListingEndpoint C
  approve event_id vehicle_id = record {
    allowed_role = admin;
    status_code = 200;
    payload_valid = true;
    build = λ claims.
        built (decision_failure "approve") of_vehicle (approve_vehicle event_id vehicle_id);
  }

  abbrev pub reject : ℕ → ListingEndpoint C
  reject vehicle_id = record {
    allowed_role = admin;
    status_code = 200;
    payload_valid = true;
    build = λ claims. built (decision_failure "reject") of_vehicle (reject_vehicle vehicle_id);
  }

  abbrev pub create_availability_block :
      (block_id vehicle_id start_date end_date : ℕ) → ListingEndpoint C
  create_availability_block block_id vehicle_id start_date end_date = record {
    allowed_role = host;
    status_code = 201;
    payload_valid = block_valid start_date end_date;
    build = λ claims.
        built block_failure of_block
          (add_availability_block block_id vehicle_id claims.sub start_date end_date);
  }

  unfoldable pub list_vehicles :
      Claims → String → (limit offset : ℤ) → Exec (ListingDb C) Failure (Page (VehicleResponse C))
  list_vehicles claims approval_status limit offset = do
    lift (require_role claims admin)
    raise_if (not (str_eq approval_status "approved"))
        (http_exception 400 "only approval_status=approved is listable")
    vehicles ← catching owner_failure (list_approved_vehicles (limit +ℤ pos 1) offset)
    pure (page_of vehicle_response limit offset vehicles)

  unfoldable pub get_vehicle : Claims → ℕ → Exec (ListingDb C) Failure (VehicleResponse C)
  get_vehicle claims vehicle_id = do
    vehicle ← catching owner_failure (get_vehicle_for_viewer vehicle_id claims.sub claims.role)
    pure (vehicle_response vehicle)
