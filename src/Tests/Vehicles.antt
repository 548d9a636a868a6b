-- ===== src/Tests/Vehicles.antt =====
-- Concrete requests to the endpoints of the listing service, with whole numbers for coordinates.
use car_flow_mvp.Base.{ℕ, ◌≡◌, refl, Bool, true, some, String, [], ◌∷◌}
use car_flow_mvp.Base.Int.{pos}
use car_flow_mvp.Base.Result.{ok}
use car_flow_mvp.Base.Table.{find, replace}
use car_flow_mvp.Shared.Http.{Response}
use car_flow_mvp.Shared.Auth.{Claims, admin, require_role}
use car_flow_mvp.Shared.Idempotency.{select_key, make_guard, store, respond_idempotently}
use car_flow_mvp.Shared.Endpoint.{run_endpoint, serve}
use car_flow_mvp.Booking.Domain.{instant}
use car_flow_mvp.Booking.ListingClient.{pending, approved}
use car_flow_mvp.Listing
use car_flow_mvp.Listing.{Vehicle, ListingDb, key_table, get_by_id, approve_vehicle}
use car_flow_mvp.Listing.Schemas.{ListingBody}
use car_flow_mvp.Listing.Routes.{of_vehicle}
use car_flow_mvp.Listing.Routes.Repetition.{approving, rejecting, target, listing_request_repeated}

abbrev a_car : ℕ → Vehicle ℕ
a_car vehicle_id = record {
  id = vehicle_id;
  host_id = 1;
  make = "Make";
  model = "Model";
  year = pos 2020;
  daily_price_cents = pos 5000;
  daily_mileage_limit = pos 200;
  booking_mode = instant;
  approval_status = pending;
  latitude = 48;
  longitude = 11;
}

abbrev two_cars : ListingDb ℕ
two_cars = record { vehicles = a_car 7 ∷ a_car 8 ∷ []; blocks = []; outbox = []; keys = [] }

abbrev everywhere : ℕ → Bool
everywhere place = true

abbrev whole_body : String → String
whole_body body = body

abbrev an_admin : Claims
an_admin = record { sub = 8; role = admin }

abbrev after_approval : ListingDb ℕ
after_approval =
    (serve (key_table ℕ) whole_body (target everywhere everywhere (approving 400 7)) an_admin
      (some "key") "8" "" 5 two_cars).1

abbrev approval : Response (ListingBody ℕ)
approval = record {
  status_code = 200;
  content = of_vehicle (record (a_car 7) { approval_status = approved });
}

approval_answered :
    (serve
      (key_table ℕ)
      whole_body
      (target everywhere everywhere (approving 400 7))
      an_admin
      (some "key")
      "8"
      ""
      5
      two_cars).0
    ≡ ok approval
unfolding serve run_endpoint make_guard select_key require_role respond_idempotently store
    approve_vehicle get_by_id find Listing.save replace
approval_answered = refl

-- With the key of the approval of vehicle 7, the rejection of vehicle 8 is answered by that approval.
listing_request_repeated_example :
    serve
      (key_table ℕ)
      whole_body
      (target everywhere everywhere (rejecting 8))
      an_admin
      (some "key")
      "8"
      ""
      6
      after_approval
    ≡ (ok approval, after_approval)
listing_request_repeated_example =
    listing_request_repeated everywhere everywhere whole_body (approving 400 7) (rejecting 8)
      an_admin "8" "key" "" 5 6 two_cars after_approval refl refl refl refl approval_answered refl
