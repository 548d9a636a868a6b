-- ===== src/Search/Documents.antt =====
-- services/search/documents.py and services/search/schemas.py: what the index holds of a vehicle, and
-- what an answer shows of it. The `data` of a message is the listing service's snapshot of the vehicle.
use car_flow_mvp.Base.{ℕ, String}
use car_flow_mvp.Base.Int.{ℤ}
use car_flow_mvp.Booking.Domain.{BookingMode}
use car_flow_mvp.Listing.{Vehicle}

pub record Location (C : Type 0) : Type 0 where
  pub lat : C
  pub lon : C

pub record Document (C : Type 0) : Type 0 where
  pub vehicle_id : ℕ
  pub host_id : ℕ
  pub make : String
  pub model : String
  pub year : ℤ
  pub daily_price_cents : ℤ
  pub daily_mileage_limit : ℤ
  pub booking_mode : BookingMode
  pub location : Location C

pub record VehicleSearchResult (C : Type 0) : Type 0 where
  pub vehicle_id : ℕ
  pub host_id : ℕ
  pub make : String
  pub model : String
  pub year : ℤ
  pub daily_price_cents : ℤ
  pub daily_mileage_limit : ℤ
  pub booking_mode : BookingMode
  pub latitude : C
  pub longitude : C

module _ {C : Type 0} where
  abbrev pub vehicle_to_document : Vehicle C → Document C
  vehicle_to_document vehicle = record {
    vehicle_id = vehicle.id;
    host_id = vehicle.host_id;
    make = vehicle.make;
    model = vehicle.model;
    year = vehicle.year;
    daily_price_cents = vehicle.daily_price_cents;
    daily_mileage_limit = vehicle.daily_mileage_limit;
    booking_mode = vehicle.booking_mode;
    location = record { lat = vehicle.latitude; lon = vehicle.longitude };
  }

  abbrev pub document_to_result : Document C → VehicleSearchResult C
  document_to_result document = record {
    vehicle_id = document.vehicle_id;
    host_id = document.host_id;
    make = document.make;
    model = document.model;
    year = document.year;
    daily_price_cents = document.daily_price_cents;
    daily_mileage_limit = document.daily_mileage_limit;
    booking_mode = document.booking_mode;
    latitude = document.location.lat;
    longitude = document.location.lon;
  }
