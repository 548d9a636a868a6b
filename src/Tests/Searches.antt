-- ===== src/Tests/Searches.antt =====
-- A concrete index and concrete claims, as functions, and the search service's work on them.
use car_flow_mvp.Base.{
  length, arith, ℕ, ◌≡◌, refl, sym, ap, Bool, true, false, Option, none, some, [], ◌∷◌, ◌==◌,
  if◌then◌else◌,
}
use car_flow_mvp.Base.Int.{pos}
use car_flow_mvp.Base.Result.{ok, err}
use car_flow_mvp.Base.Table.{find, replace}
use car_flow_mvp.Shared.Outbox.{OutboxRow, envelope_of}
use car_flow_mvp.Shared.Auth.{Claims, host, admin}
use car_flow_mvp.Booking.Domain.{instant}
use car_flow_mvp.Booking.ListingClient.{pending, approved}
use car_flow_mvp.Listing
use car_flow_mvp.Listing.{
  with_status, Vehicle, VehicleMessage, vehicle_approved, ListingDb, vehicle_key, create_vehicle,
  approve_vehicle, get_by_id,
}
use car_flow_mvp.Listing.Schemas.{CreateVehicleRequest}
use car_flow_mvp.Listing.Routes.{of_vehicle}
use car_flow_mvp.Listing.Routes.Repetition.{creating, approving}
use car_flow_mvp.Search.Documents.{Document, vehicle_to_document}
use car_flow_mvp.Search.Stores.{Elastic, Redis, Deletion, deleted, not_found}
use car_flow_mvp.Search.Service.{
  Stores, es_unavailable, process, claim_event, handle_vehicle_event, upsert_vehicle,
}
use car_flow_mvp.Search.Projection.{shown}
use car_flow_mvp.Search.Machine.{System, Reach, start, request, deliver}
use car_flow_mvp.Search.Backfill.{run_backfill}
use car_flow_mvp.Search.Backfill.Complete.{backfill_completes}
use car_flow_mvp.Search.Agreement.{index_is_projection, failed_event_lost}

abbrev Index : Type 0
Index = ℕ → Option (Document ℕ)

abbrev put : ℕ → Option (Document ℕ) → Index → Index
put k d s i = if k == i then d else s i

abbrev deletion : ℕ → Index → Option (Document ℕ) → Deletion Index
deletion k s none = not_found
deletion k s (some d) = deleted (put k none s)

deletion-get :
    (k : ℕ) (s s' : Index) (o : Option (Document ℕ))
    → deletion k s o ≡ deleted s'
    → (i : ℕ) → s' i ≡ put k none s i
deletion-get k s s' none e i = cc
deletion-get k s s' (some d) e i =
    let same : put k none s ≡ s' = cc in ap (λ (f : Index). f i) (sym same)

deletion-not_found :
    (k : ℕ) (s : Index) (o : Option (Document ℕ)) → deletion k s o ≡ not_found → o ≡ none
deletion-not_found k s none e = refl
deletion-not_found k s (some d) e = cc

put-get :
    (k : ℕ) (d : Document ℕ) (s s' : Index)
    → some (put k (some d) s) ≡ some s'
    → (i : ℕ) → s' i ≡ put k (some d) s i
put-get k d s s' e i = let same : put k (some d) s ≡ s' = cc in ap (λ (f : Index). f i) (sym same)

abbrev answering : Elastic Index ℕ
answering = record {
  get = λ s i. s i;
  index = λ k d s. some (put k (some d) s);
  delete = λ k s. deletion k s (s k);
  get-index = put-get;
  get-delete = λ k s s' e. deletion-get k s s' (s k) e;
  get-not_found = λ k s e. deletion-not_found k s (s k) e;
}

no_write :
    (k : ℕ) (d : Document ℕ) (s s' : Index) → none ≡ some s' → (i : ℕ) → s' i ≡ put k (some d) s i
no_write k d s s' e i = cc

-- An index whose writes fail.
abbrev failing : Elastic Index ℕ
failing = record answering { index = λ k d s. none; get-index = no_write }

abbrev claims : Redis (ℕ → Bool)
claims = record {
  is_set = λ r i. r i;
  set_nx = λ k r i. if k == i then true else r i;
  is_set-set_nx = λ k r i. refl;
}

abbrev empty_stores : Stores Index (ℕ → Bool)
empty_stores = record { es = λ i. none; redis = λ i. false }

abbrev payload : CreateVehicleRequest ℕ
payload = record {
  make = "Make";
  model = "Model";
  year = pos 2020;
  daily_price_cents = pos 5000;
  daily_mileage_limit = pos 200;
  booking_mode = instant;
  latitude = 48;
  longitude = 11;
}

abbrev new_car : Vehicle ℕ
new_car = record {
  id = 7;
  host_id = 1;
  make = "Make";
  model = "Model";
  year = pos 2020;
  daily_price_cents = pos 5000;
  daily_mileage_limit = pos 200;
  booking_mode = instant;
  approval_status = pending;
  latitude = 48;
  longitude = 11;
}

abbrev approved_car : Vehicle ℕ
approved_car = record new_car { approval_status = approved }

abbrev approval_row : OutboxRow (VehicleMessage ℕ)
approval_row = record {
  id = 400;
  aggregate_type = "vehicle";
  aggregate_id = 7;
  message = vehicle_approved approved_car;
}

abbrev created_db : ListingDb ℕ
created_db = record { vehicles = new_car ∷ []; blocks = []; outbox = []; keys = [] }

abbrev approved_db : ListingDb ℕ
approved_db = record {
  vehicles = approved_car ∷ [];
  blocks = [];
  outbox = approval_row ∷ [];
  keys = [];
}

abbrev indexed_stores : Stores Index (ℕ → Bool)
indexed_stores = record {
  es = put 7 (some (vehicle_to_document approved_car)) (λ i. none);
  redis = λ i. if 400 == i then true else false;
}

abbrev a_host : Claims
a_host = record { sub = 1; role = host }

abbrev an_admin : Claims
an_admin = record { sub = 8; role = admin }

abbrev everywhere : ℕ → Bool
everywhere place = true

abbrev caught_up : System Index (ℕ → Bool) ℕ
caught_up = record { listing = approved_db; committed = approval_row ∷ []; stores = indexed_stores }

caught_up-Reach : Reach answering claims caught_up
unfolding create_vehicle approve_vehicle get_by_id find Listing.save replace process claim_event
    handle_vehicle_event upsert_vehicle
caught_up-Reach =
    deliver approval_row []
      (request everywhere everywhere (approving 400 7) an_admin (of_vehicle approved_car)
        (request everywhere everywhere (creating 7 payload) a_host (of_vehicle new_car)
          (start empty_stores (λ i. refl) (λ i. refl)) refl refl)
        refl refl)
      refl refl

index_is_projection_example :
    caught_up.stores.es 7 ≡ shown (find vehicle_key 7 caught_up.listing.vehicles)
index_is_projection_example = index_is_projection answering claims 7 caught_up-Reach refl

abbrev claimed_stores : Stores Index (ℕ → Bool)
claimed_stores = record empty_stores { redis = λ i. if 400 == i then true else false }

failed_event_lost_example :
    (process failing claims (envelope_of approval_row) empty_stores
      ≡ (err es_unavailable, claimed_stores))
    × (process failing claims (envelope_of approval_row) claimed_stores ≡ (
      ok tt,
      record claimed_stores { redis = λ i. if 400 == i then true else claimed_stores.redis i },
    ))
failed_event_lost_example =
    failed_event_lost failing claims 400 (vehicle_approved approved_car) empty_stores refl refl refl

always_answers :
    (k : ℕ) (d : Document ℕ) (s : Index) → (s' : Index) × (answering.index k d s ≡ some s')
always_answers k d s = (put k (some d) s, refl)

backfill_completes_example :
    (s' : Stores Index (ℕ → Bool)) × (run_backfill answering claims an_admin approved_db 2
        empty_stores
      ≡ (ok (length (with_status approved approved_db.vehicles)), s'))
    × ((i : ℕ) → s'.es i ≡ shown (find vehicle_key i approved_db.vehicles))
unfolding find
backfill_completes_example =
    backfill_completes answering claims always_answers an_admin approved_db 2 empty_stores refl
      (refl, tt) (λ i. refl) (omega arith)
