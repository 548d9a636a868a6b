-- ===== src/Listing/Schemas.antt =====
-- services/listing/schemas.py: the payloads of the listing service's requests, with their validators,
-- and the bodies of its answers. `C` is the type of coordinates.
use car_flow_mvp.Base.{ℕ, Bool, true, ◌&&◌, not, Option, none, some, String, ltb}
use car_flow_mvp.Base.Int.{ℤ, pos, leb_ℤ, ltb_ℤ}
use car_flow_mvp.Booking.Domain.{BookingMode}
use car_flow_mvp.Booking.ListingClient.{ApprovalStatus}
use car_flow_mvp.Shared.Endpoint.{text_fits}

module _ (C : Type 0) where
  pub record VehicleResponse : Type 0 where
    pub id : ℕ
    pub host_id : ℕ
    pub make : String
    pub model : String
    pub year : ℤ
    pub daily_price_cents : ℤ
    pub daily_mileage_limit : ℤ
    pub booking_mode : BookingMode
    pub approval_status : ApprovalStatus
    pub latitude : C
    pub longitude : C

  pub record CreateVehicleRequest : Type 0 where
    pub make : String
    pub model : String
    pub year : ℤ
    pub daily_price_cents : ℤ
    pub daily_mileage_limit : ℤ
    pub booking_mode : BookingMode
    pub latitude : C
    pub longitude : C

  -- The payload of an update, which is also the keyword arguments `fields` of `update_vehicle`; a field
  -- that is not set, or set to null, is nothing.
  pub record VehicleFields : Type 0 where
    pub make : Option String
    pub model : Option String
    pub year : Option ℤ
    pub daily_price_cents : Option ℤ
    pub daily_mileage_limit : Option ℤ
    pub booking_mode : Option BookingMode
    pub latitude : Option C
    pub longitude : Option C

pub record AvailabilityBlockResponse : Type 0 where
  pub id : ℕ
  pub vehicle_id : ℕ
  pub start_date : ℕ
  pub end_date : ℕ

-- The bodies that are stored under an idempotency key.
pub data ListingBody (C : Type 0) : Type 0 where
  vehicle_body : VehicleResponse C → ListingBody C
  block_body : AvailabilityBlockResponse → ListingBody C

-- `Field(ge=1980, le=2100)` and `Field(gt=0)`.
abbrev pub year_valid : ℤ → Bool
year_valid year = leb_ℤ (pos 1980) year && leb_ℤ year (pos 2100)

abbrev pub positive : ℤ → Bool
positive n = ltb_ℤ (pos 0) n

-- A field that may be missing.
abbrev pub valid_if_given : {A : Type 0} → (A → Bool) → Option A → Bool
valid_if_given valid none = true
valid_if_given valid (some a) = valid a

-- The ranges of the coordinates are those of `Field(ge=-90, le=90)` and `Field(ge=-180, le=180)`.
module _ {C : Type 0} (is_latitude is_longitude : C → Bool) where
  abbrev pub create_valid : CreateVehicleRequest C → Bool
  create_valid payload =
      text_fits 80 payload.make
      && text_fits 80 payload.model
      && year_valid payload.year
      && positive payload.daily_price_cents
      && positive payload.daily_mileage_limit
      && is_latitude payload.latitude
      && is_longitude payload.longitude

  abbrev pub update_valid : VehicleFields C → Bool
  update_valid payload =
      valid_if_given (text_fits 80) payload.make
      && valid_if_given (text_fits 80) payload.model
      && valid_if_given year_valid payload.year
      && valid_if_given positive payload.daily_price_cents
      && valid_if_given positive payload.daily_mileage_limit
      && valid_if_given is_latitude payload.latitude
      && valid_if_given is_longitude payload.longitude

-- `check_date_order`
abbrev pub block_valid : (start_date end_date : ℕ) → Bool
block_valid start_date end_date = not (ltb end_date start_date)
