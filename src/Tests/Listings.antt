-- ===== src/Tests/Listings.antt =====
-- Concrete requests to the listing service, with whole numbers for coordinates.
use car_flow_mvp.Base.{ℕ, ◌≡◌, refl, leb, Bool, none, some, String, [], ◌∷◌}
use car_flow_mvp.Base.Int.{pos}
use car_flow_mvp.Base.Table.{find}
use car_flow_mvp.Shared.Auth.{Claims, host}
use car_flow_mvp.Shared.Endpoint.{serve}
use car_flow_mvp.Booking.Domain.{instant}
use car_flow_mvp.Booking.ListingClient.{approved}
use car_flow_mvp.Listing.{Vehicle, ListingDb, AvailabilityBlock, key_table, vehicle_key}
use car_flow_mvp.Listing.Schemas.{VehicleFields}
use car_flow_mvp.Listing.Routes.Owner.{IsLeft}
use car_flow_mvp.Listing.Routes.Repetition.{updating, target}
use car_flow_mvp.Listing.Routes.Stranger.{stranger_changes_nothing}

abbrev is_angle : ℕ → Bool
is_angle degrees = leb degrees 90

abbrev car : Vehicle ℕ
car = record {
  id = 7;
  host_id = 1;
  make = "Make";
  model = "Model";
  year = pos 2020;
  daily_price_cents = pos 5000;
  daily_mileage_limit = pos 200;
  booking_mode = instant;
  approval_status = approved;
  latitude = 48;
  longitude = 11;
}

abbrev new_make : VehicleFields ℕ
new_make = record {
  make = some "Other";
  model = none;
  year = none;
  daily_price_cents = none;
  daily_mileage_limit = none;
  booking_mode = none;
  latitude = none;
  longitude = none;
}

abbrev own_use : AvailabilityBlock
own_use = record { id = 60; vehicle_id = 7; start_date = 20; end_date = 23 }

abbrev one_car : ListingDb ℕ
one_car = record { vehicles = car ∷ []; blocks = own_use ∷ []; outbox = []; keys = [] }

car_found : find vehicle_key 7 one_car.vehicles ≡ some car
unfolding find
car_found = refl

abbrev other_host : Claims
other_host = record { sub = 2; role = host }

abbrev whole_text : String → String
whole_text body = body

-- Another host sends a valid request to rename the make of the car.
stranger_changes_nothing_example :
    IsLeft car one_car
      (serve
        (key_table ℕ)
        whole_text
        (target is_angle is_angle (updating 401 7 new_make))
        other_host
        (some "key")
        "2"
        "body"
        5
        one_car).1
stranger_changes_nothing_example =
    stranger_changes_nothing is_angle is_angle whole_text (updating 401 7 new_make) other_host
      (some "key") "2" "body" 5 car one_car car_found refl refl
