-- ===== src/Listing.antt =====
-- services/listing/models.py, services/listing/repository.py and services/listing/service.py: vehicles,
-- their approval, and the blocks of days on which a host does not rent. `C` is the type of coordinates.
pub mod Schemas
pub mod Routes
pub mod Machine
use car_flow_mvp.Base.{
  ℕ, refl, Bool, true, false, ◌&&◌, ◌||◌, not, Option, none, some, String, List, [], ◌∷◌, ◌++◌,
  ◌==◌, ⊤, ltb, take, drop, if◌then◌else◌,
}
use car_flow_mvp.Base.Int.{ℤ}
use car_flow_mvp.Base.Result.{ok, err}
use car_flow_mvp.Base.Exec.{Exec, pure, gets, modify, or_raise, raise_if, ◌>>=◌, ◌>>◌}
use car_flow_mvp.Base.Table.{find, replace}
use car_flow_mvp.Shared.Paging.{sql_page}
use car_flow_mvp.Shared.Outbox.{OutboxRow, write_outbox_event}
use car_flow_mvp.Shared.Auth.{Role, admin, same_role}
use car_flow_mvp.Booking.Domain.{BookingMode}
use car_flow_mvp.Booking.Model.{ranges_overlap}
use car_flow_mvp.Booking.ListingClient.{ApprovalStatus, pending, approved, declined}
use car_flow_mvp.Shared.Idempotency.{IdempotencyRow, KeyTable}
use car_flow_mvp.Listing.Schemas.{VehicleFields, ListingBody}

pub data ListingError : Type 0 where
  vehicle_not_found not_vehicle_owner overlapping_availability_block : ListingError
  -- An error of the database that nothing catches.
  database_error : ListingError
  invalid_approval_transition : ApprovalStatus → ListingError

-- A row of `availability_blocks`.
pub record AvailabilityBlock : Type 0 where
  pub id : ℕ
  pub vehicle_id : ℕ
  pub start_date : ℕ
  pub end_date : ℕ

abbrev pub status_code : ApprovalStatus → ℕ
status_code pending = 0
status_code approved = 1
status_code declined = 2

abbrev pub same_approval : ApprovalStatus → ApprovalStatus → Bool
same_approval a b = status_code a == status_code b

-- `if value is not None: setattr(...)`
abbrev pub given : {A : Type 0} → Option A → A → A
given none old = old
given (some value) old = value

module _ (C : Type 0) where
  -- A row of `vehicles`, without the timestamps.
  pub record Vehicle : Type 0 where
    pub id : ℕ
    pub host_id : ℕ
    pub make : String
    pub model : String
    pub year : ℤ
    pub daily_price_cents : ℤ
    pub daily_mileage_limit : ℤ
    pub booking_mode : BookingMode
    pub approval_status : ApprovalStatus
    pub latitude : C
    pub longitude : C

  -- The messages, each with `_vehicle_snapshot`, which has every field of the row.
  pub data VehicleMessage : Type 0 where
    vehicle_updated vehicle_approved : Vehicle → VehicleMessage

  pub record ListingDb : Type 0 where
    pub vehicles : List Vehicle
    pub blocks : List AvailabilityBlock
    pub outbox : List (OutboxRow VehicleMessage)
    pub keys : List (IdempotencyRow (ListingBody C))

-- The constraint `ex_availability_blocks_overlap`.
abbrev pub blocked : AvailabilityBlock → List AvailabilityBlock → Bool
blocked block [] = false
blocked block (row ∷ rows) =
    ((row.vehicle_id == block.vehicle_id)
      && ranges_overlap row.start_date row.end_date block.start_date block.end_date)
    || blocked block rows

abbrev pub Action : Type 0 → Type 0 → Type 0
Action C A = Exec (ListingDb C) ListingError A

abbrev pub key_table : (C : Type 0) → KeyTable (ListingDb C) (ListingBody C)
key_table C = record {
  keys = λ db. db.keys;
  with_keys = λ rows db. record db { keys = rows };
  keys-with_keys = λ rows db. refl;
}

module _ {C : Type 0} where
  -- The vehicle that a message tells of, in its `data`.
  abbrev pub snapshot : VehicleMessage C → Vehicle C
  snapshot (vehicle_updated vehicle) = vehicle
  snapshot (vehicle_approved vehicle) = vehicle

  abbrev pub vehicle_key : Vehicle C → ℕ
  vehicle_key vehicle = vehicle.id

  unfoldable pub get_by_id : ℕ → Action C (Option (Vehicle C))
  get_by_id vehicle_id = gets (λ db. find vehicle_key vehicle_id db.vehicles)

  unfoldable pub save : Vehicle C → Action C ⊤
  save vehicle = modify (λ db. record db { vehicles = replace vehicle_key vehicle db.vehicles })

  abbrev pub emit : ℕ → Vehicle C → VehicleMessage C → Action C ⊤
  emit event_id vehicle message = modify (λ db. record db {
    outbox = write_outbox_event event_id "vehicle" vehicle.id message db.outbox;
  })

  -- The INSERT of a vehicle whose id `uuid4` gave.
  unfoldable pub create_vehicle :
      ℕ
      → ℕ
      → (make model : String) → (year price limit : ℤ) → BookingMode
      → (latitude longitude : C) → Action C (Vehicle C)
  create_vehicle vehicle_id host_id make model year price limit booking_mode latitude longitude db =
      let vehicle : Vehicle C = record {
        id = vehicle_id;
        host_id = host_id;
        make = make;
        model = model;
        year = year;
        daily_price_cents = price;
        daily_mileage_limit = limit;
        booking_mode = booking_mode;
        approval_status = pending;
        latitude = latitude;
        longitude = longitude;
      } in
      (ok vehicle, record db { vehicles = db.vehicles ++ vehicle ∷ [] })

  abbrev pub load : ℕ → Action C (Vehicle C)
  load vehicle_id = do row ← get_by_id vehicle_id; or_raise vehicle_not_found row

  unfoldable pub get_owned_vehicle : (vehicle_id host_id : ℕ) → Action C (Vehicle C)
  get_owned_vehicle vehicle_id host_id = do
    vehicle ← load vehicle_id
    raise_if (not (vehicle.host_id == host_id)) not_vehicle_owner
    pure vehicle

  unfoldable pub get_vehicle_for_viewer : (vehicle_id viewer_id : ℕ) → Role → Action C (Vehicle C)
  get_vehicle_for_viewer vehicle_id viewer_id viewer_role = do
    vehicle ← load vehicle_id
    raise_if
        (not (same_role viewer_role admin || (vehicle.host_id == viewer_id))
          && not (same_approval vehicle.approval_status approved))
        not_vehicle_owner
    pure vehicle

  abbrev pub updated : Vehicle C → VehicleFields C → Vehicle C
  updated vehicle fields = record vehicle {
    make = given fields.make vehicle.make;
    model = given fields.model vehicle.model;
    year = given fields.year vehicle.year;
    daily_price_cents = given fields.daily_price_cents vehicle.daily_price_cents;
    daily_mileage_limit = given fields.daily_mileage_limit vehicle.daily_mileage_limit;
    booking_mode = given fields.booking_mode vehicle.booking_mode;
    latitude = given fields.latitude vehicle.latitude;
    longitude = given fields.longitude vehicle.longitude;
  }

  unfoldable pub update_vehicle :
      (event_id vehicle_id host_id : ℕ) → VehicleFields C → Action C (Vehicle C)
  unfolding get_owned_vehicle
  update_vehicle event_id vehicle_id host_id fields = do
    found ← get_owned_vehicle vehicle_id host_id
    save (updated found fields)
    emit event_id found (vehicle_updated (updated found fields))
    pure (updated found fields)

  -- `if vehicle.approval_status != "pending"`
  abbrev pub require_pending : Vehicle C → Action C ⊤
  require_pending vehicle =
      raise_if (not (same_approval vehicle.approval_status pending))
        (invalid_approval_transition vehicle.approval_status)

  unfoldable pub approve_vehicle : (event_id vehicle_id : ℕ) → Action C (Vehicle C)
  approve_vehicle event_id vehicle_id = do
    found ← load vehicle_id
    require_pending found
    save (record found { approval_status = approved })
    emit event_id found (vehicle_approved (record found { approval_status = approved }))
    pure (record found { approval_status = approved })

  unfoldable pub reject_vehicle : ℕ → Action C (Vehicle C)
  reject_vehicle vehicle_id = do
    found ← load vehicle_id
    require_pending found
    save (record found { approval_status = declined })
    pure (record found { approval_status = declined })

  abbrev pub with_status : ApprovalStatus → List (Vehicle C) → List (Vehicle C)
  with_status status [] = []
  with_status status (vehicle ∷ vehicles) =
      if same_approval vehicle.approval_status status
      then vehicle ∷ with_status status vehicles
      else with_status status vehicles

  -- For a limit and an offset that the database's driver can send.
  unfoldable pub list_approved_vehicles : (limit offset : ℤ) → Action C (List (Vehicle C))
  list_approved_vehicles limit offset db =
      or_raise database_error (sql_page limit offset (with_status approved db.vehicles)) db

  -- The INSERT of a block; both constraints raise an IntegrityError.
  unfoldable pub insert_block : AvailabilityBlock → Action C AvailabilityBlock
  insert_block block db =
      if ltb block.end_date block.start_date || blocked block db.blocks
      then (err overlapping_availability_block, db)
      else (ok block, record db { blocks = db.blocks ++ block ∷ [] })

  unfoldable pub add_availability_block :
      (block_id vehicle_id host_id start_date end_date : ℕ) → Action C AvailabilityBlock
  unfolding get_owned_vehicle
  add_availability_block block_id vehicle_id host_id start_date end_date = do
    vehicle ← get_owned_vehicle vehicle_id host_id
    insert_block (record {
      id = block_id;
      vehicle_id = vehicle_id;
      start_date = start_date;
      end_date = end_date;
    })
