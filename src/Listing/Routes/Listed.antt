-- ===== src/Listing/Routes/Listed.antt =====
-- The list of approved vehicles, which the search service's backfill reads.
use car_flow_mvp.Base.{◌≡◌, refl, ap, ◌∙◌, true, Option, none, some, List}
use car_flow_mvp.Base.Int.{ℤ, pos, ◌+ℤ◌}
use car_flow_mvp.Base.Exec.{caught, continue, or_raise}
use car_flow_mvp.Shared.Auth.{Claims, admin, same_role, require_role}
use car_flow_mvp.Shared.Paging.{sql_page, read_page, answer_page, read_page_lem}
use car_flow_mvp.Booking.ListingClient.{approved}
use car_flow_mvp.Listing.{Vehicle, ListingDb, with_status, list_approved_vehicles}
use car_flow_mvp.Listing.Routes.{vehicle_response, list_vehicles}

module _ {C : Type 0} (claims : Claims) (limit offset : ℤ) (db : ListingDb C)
    (role : same_role claims.role admin ≡ true) where
  reads :
      (o : Option (List (Vehicle C)))
      → sql_page (limit +ℤ pos 1) offset (with_status approved db.vehicles) ≡ o
      → list_vehicles claims "approved" limit offset db
        ≡ (read_page vehicle_response limit offset o, db)
  unfolding list_vehicles list_approved_vehicles require_role
  reads none e = rw (role, e, or_raise, caught, continue) refl
  reads (some rows) e = rw (role, e, or_raise, caught, continue) refl

  pub list_vehicles-page :
      list_vehicles claims "approved" limit offset db
      ≡ (answer_page vehicle_response limit offset (with_status approved db.vehicles), db)
  list_vehicles-page =
      reads _ refl
      ∙ ap (λ r. (r, db))
          (read_page_lem vehicle_response limit offset (with_status approved db.vehicles))
