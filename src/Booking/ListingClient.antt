-- ===== src/Booking/ListingClient.antt =====
-- services/booking/listing_client.py: reading a vehicle over HTTP from the listing service.
use car_flow_mvp.Base.{ℕ, ◌||◌, ◌&&◌, ◌==◌, leb, if◌then◌else◌}
use car_flow_mvp.Base.Int.{ℤ}
use car_flow_mvp.Base.Result.{Result, ok, err}
use car_flow_mvp.Booking.Domain.{BookingMode}

-- The texts of the listing service's `approval_status`; `declined` is its text `rejected`.
pub data ApprovalStatus : Type 0 where
  pending approved declined : ApprovalStatus

pub record VehicleInfo : Type 0 where
  pub id : ℕ
  pub host_id : ℕ
  pub daily_price_cents : ℤ
  pub daily_mileage_limit : ℤ
  pub booking_mode : BookingMode
  pub approval_status : ApprovalStatus

-- What the listing service answers: the status code, and the body of an answer that has one.
pub record ListingResponse : Type 0 where
  pub status_code : ℕ
  pub body : VehicleInfo

pub data ClientError : Type 0 where
  vehicle_not_found http_status_error : ClientError

-- `raise_for_status` lets the codes from 200 to 299 pass.
unfoldable pub get_vehicle : ListingResponse → Result ClientError VehicleInfo
get_vehicle response =
    if (response.status_code == 404) || (response.status_code == 403)
    then err vehicle_not_found
    else if leb 200 response.status_code && leb response.status_code 299
    then ok response.body
    else err http_status_error
