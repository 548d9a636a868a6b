-- ===== src/Search/Backfill.antt =====
-- services/search/backfill.py: the approved vehicles of the listing service are read page by page and
-- indexed. `while True` runs on fuel; Search/Backfill/Complete shows how much is enough.
pub mod Refreshed
pub mod Complete
use car_flow_mvp.Base.{ℕ, zero, suc, ◌+◌, ◌≡◌, Option, none, some, List, [], ◌∷◌, ⊤}
use car_flow_mvp.Base.Int.{ℤ, pos}
use car_flow_mvp.Base.Result.{Result, ok, err}
use car_flow_mvp.Base.Exec.{Exec, pure, raise, catching, lift, ◌>>=◌, ◌>>◌}
use car_flow_mvp.Shared.Http.{Failure}
use car_flow_mvp.Shared.Auth.{Claims}
use car_flow_mvp.Shared.Paging.{Page}
use car_flow_mvp.Listing.{Vehicle, ListingDb}
use car_flow_mvp.Listing.Schemas.{VehicleResponse}
use car_flow_mvp.Listing.Routes.{list_vehicles}
use car_flow_mvp.Search.Stores.{Elastic, Redis}
use car_flow_mvp.Search.Service.{SearchError, Stores, handle_vehicle_event}

pub data BackfillError : Type 0 where
  search_failed : SearchError → BackfillError
  -- `raise_for_status`
  listing_refused : Failure → BackfillError
  out_of_fuel : BackfillError

-- `_event_data`
abbrev pub event_data : {C : Type 0} → VehicleResponse C → Vehicle C
event_data vehicle = record {
  id = vehicle.id;
  host_id = vehicle.host_id;
  make = vehicle.make;
  model = vehicle.model;
  year = vehicle.year;
  daily_price_cents = vehicle.daily_price_cents;
  daily_mileage_limit = vehicle.daily_mileage_limit;
  booking_mode = vehicle.booking_mode;
  approval_status = vehicle.approval_status;
  latitude = vehicle.latitude;
  longitude = vehicle.longitude;
}

abbrev pub as_answer : {A : Type 0} → Result Failure A → Result BackfillError A
as_answer (ok a) = ok a
as_answer (err e) = err (listing_refused e)

module _ {S R C : Type 0} (elastic : Elastic S C) (redis : Redis R) where
  abbrev pub Action : Type 0 → Type 0
  Action A = Exec (Stores S R) BackfillError A

  -- `for vehicle in body["items"]`, with the number of those that were indexed.
  unfoldable pub index_items : List (VehicleResponse C) → ℕ → Action ℕ
  index_items [] indexed = pure indexed
  index_items (vehicle ∷ items) indexed = do
    catching search_failed (handle_vehicle_event elastic redis (event_data vehicle))
    index_items items (indexed + 1)

  -- The answer of the listing service, whose database is `db`, to a page's request.
  module _ (claims : Claims) (page_size : ℕ) (db : ListingDb C) where
    abbrev pub get_page : ℤ → Result BackfillError (Page (VehicleResponse C))
    get_page offset = as_answer (list_vehicles claims "approved" (pos page_size) offset db).0

    -- The loop, with what follows a page by its `next_offset`.
    unfoldable pub backfill_pages : ℕ → ℤ → ℕ → Action ℕ
    backfill_pages zero offset indexed = raise out_of_fuel
    backfill_pages (suc fuel) offset indexed = do
      body ← lift (get_page offset)
      count ← index_items body.items indexed
      elim body.next_offset [
        | none ↦ pure count
        | some next_offset ↦ backfill_pages fuel next_offset count
      ]

  -- `run_backfill`, with the claims of the token that it mints, and PAGE_SIZE.
  unfoldable pub run_backfill : Claims → ListingDb C → ℕ → Action ℕ
  run_backfill claims db fuel = backfill_pages claims 100 db fuel (pos 0) 0
