-- ===== src/Listing/Routes/Owner.antt =====
-- What is left alone of a vehicle of another host: services/listing/routes.py.
use car_flow_mvp.Base.{
  ℕ, ◌≡◌, refl, sym, ap, subst, ◌∙◌, true, false, some, List, [], ◌∷◌, ◌++◌, ◌==◌, if◌then◌else◌,
  inl, inr, ltb, ◌||◌, ==→eq, Bool-cases, Option-cases,
}
use car_flow_mvp.Base.Result.{Result, ok, err}
use car_flow_mvp.Base.Exec.{continue}
use car_flow_mvp.Base.Table.{find, find-key, find-replace, replace}
use car_flow_mvp.Listing.{
  Vehicle, AvailabilityBlock, blocked as is_blocked, vehicle_updated,
  overlapping_availability_block, ListingDb, ListingError, vehicle_key, vehicle_not_found,
  not_vehicle_owner, get_by_id, save, get_owned_vehicle, updated, update_vehicle, insert_block,
  add_availability_block,
}
use car_flow_mvp.Shared.Outbox.{write_outbox_event}
use car_flow_mvp.Listing.Schemas.{VehicleFields}

-- The days that a vehicle is blocked.
abbrev pub blocks_of : ℕ → List AvailabilityBlock → List AvailabilityBlock
blocks_of vehicle_id [] = []
blocks_of vehicle_id (block ∷ blocks) =
    if block.vehicle_id == vehicle_id
    then block ∷ blocks_of vehicle_id blocks
    else blocks_of vehicle_id blocks

blocks_of-append :
    (v : ℕ) (block : AvailabilityBlock) (blocks : List AvailabilityBlock)
    → (block.vehicle_id == v) ≡ false
    → blocks_of v (blocks ++ block ∷ []) ≡ blocks_of v blocks
blocks_of-append v block [] other = rw other
blocks_of-append v block (b ∷ blocks) other = rw (blocks_of-append v block blocks other)

module _ {C : Type 0} where
  -- The vehicle and its blocks are what they were.
  pub record IsLeft (vehicle : Vehicle C) (db db' : ListingDb C) : Type 0 where
    pub stored : find vehicle_key vehicle.id db'.vehicles ≡ some vehicle
    pub blocked : blocks_of vehicle.id db'.blocks ≡ blocks_of vehicle.id db.blocks

  -- Who asks for a vehicle as its host is refused, or is its host.
  data Asked (vehicle_id host_id : ℕ) (db : ListingDb C) : Type 0 where
    refused :
        (e : ListingError)
        → get_owned_vehicle vehicle_id host_id db ≡ (err e, db)
        → Asked vehicle_id host_id db
    granted :
        (found : Vehicle C)
        → find vehicle_key vehicle_id db.vehicles ≡ some found
        → (found.host_id == host_id) ≡ true
        → get_owned_vehicle vehicle_id host_id db ≡ (ok found, db)
        → Asked vehicle_id host_id db

  asked : (vehicle_id host_id : ℕ) (db : ListingDb C) → Asked vehicle_id host_id db
  unfolding get_owned_vehicle get_by_id
  asked vehicle_id host_id db = elim (Option-cases (find vehicle_key vehicle_id db.vehicles)) [
    | inl absent ↦ refused vehicle_not_found (rw (absent, continue))
    | inr (v, there) ↦ elim (Bool-cases (v.host_id == host_id)) [
      | inl same ↦ granted v there same (rw (there, same, continue))
      | inr other ↦ refused not_vehicle_owner (rw (there, other, continue))
    ]
  ]

  -- A host's vehicle has another id than one of another host.
  other_id :
      (vehicle_id host_id : ℕ) (db : ListingDb C) (found vehicle : Vehicle C)
      → find vehicle_key vehicle_id db.vehicles ≡ some found
      → (found.host_id == host_id) ≡ true
      → find vehicle_key vehicle.id db.vehicles ≡ some vehicle
      → (vehicle.host_id == host_id) ≡ false
      → (vehicle_id == vehicle.id) ≡ false
  other_id vehicle_id host_id db found vehicle there same stored other =
      elim (Bool-cases (vehicle_id == vehicle.id)) [
        | inl e ↦
            let at_id = ap (λ k. find vehicle_key k db.vehicles) (==→eq vehicle_id vehicle.id e) in
            let one : found ≡ vehicle = cc (sym there ∙ at_id ∙ stored) in
            cc (sym same ∙ ap (λ (v : Vehicle C). v.host_id == host_id) one ∙ other)
        | inr differs ↦ differs
      ]

  -- The state after a run, by what the run is known to be.
  pub ends :
      {A : Type 0} {out out' : Result ListingError A × ListingDb C} {a : A} {vehicle : Vehicle C}
      {db db' : ListingDb C}
      → out ≡ (ok a, db')
      → out ≡ out'
      → IsLeft vehicle db out'.1
      → IsLeft vehicle db db'
  ends {A} {out} {out'} {a} {vehicle} {db} {db'} h step c =
      subst (IsLeft vehicle db)
        (ap (λ (o : Result ListingError A × ListingDb C). o.1) (sym step ∙ h)) c

  module _ (vehicle : Vehicle C) (host_id : ℕ) (db db' : ListingDb C)
      (stored : find vehicle_key vehicle.id db.vehicles ≡ some vehicle)
      (other : (vehicle.host_id == host_id) ≡ false) where
    pub updating-IsLeft :
        (event_id vehicle_id : ℕ) (fields : VehicleFields C) (v : Vehicle C)
        → update_vehicle event_id vehicle_id host_id fields db ≡ (ok v, db')
        → IsLeft vehicle db db'
    unfolding update_vehicle save
    updating-IsLeft event_id vehicle_id fields v h = elim (asked vehicle_id host_id db) [
      | refused e denied ↦
          let step : update_vehicle event_id vehicle_id host_id fields db ≡ (err e, db) =
            rw (denied, continue) in
          cc
      | granted found there same owns ↦
          let row = updated found fields in
          let id_is : row.id ≡ vehicle_id =
            find-key vehicle_key vehicle_id found db.vehicles there in
          let differs = other_id vehicle_id host_id db found vehicle there same stored other in
          let step : update_vehicle event_id vehicle_id host_id fields db ≡ (
            ok row,
            record db {
              vehicles = replace vehicle_key row db.vehicles;
              outbox =
                  write_outbox_event event_id "vehicle" found.id (vehicle_updated row) db.outbox;
            },
          ) =
            rw (owns, continue) in
          ends h step (record {
            stored =
                find-replace vehicle_key vehicle.id row db.vehicles
                ∙ rw (ap (λ k. k == vehicle.id) id_is ∙ differs) stored;
            blocked = refl;
          })
    ]

    pub blocking-IsLeft :
        (block_id vehicle_id start_date end_date : ℕ) (b : AvailabilityBlock)
        → add_availability_block block_id vehicle_id host_id start_date end_date db ≡ (ok b, db')
        → IsLeft vehicle db db'
    unfolding add_availability_block insert_block
    blocking-IsLeft block_id vehicle_id start_date end_date b h =
        elim (asked vehicle_id host_id db) [
          | refused e denied ↦
              let step : add_availability_block block_id vehicle_id host_id start_date end_date db
                  ≡ (err e, db) =
                rw (denied, continue) in
              cc
          | granted found there same owns ↦
              let differs = other_id vehicle_id host_id db found vehicle there same stored other in
              let block : AvailabilityBlock = record {
                id = block_id;
                vehicle_id = vehicle_id;
                start_date = start_date;
                end_date = end_date;
              } in
              elim (Bool-cases (ltb end_date start_date || is_blocked block db.blocks)) [
                | inl taken ↦
                    let step : add_availability_block block_id vehicle_id host_id start_date
                          end_date db
                        ≡ (err overlapping_availability_block, db) =
                      rw (owns, continue, taken) in
                    cc
                | inr free ↦
                    let step : add_availability_block block_id vehicle_id host_id start_date
                          end_date db
                        ≡ (ok block, record db { blocks = db.blocks ++ block ∷ [] }) =
                      rw (owns, continue, free) in
                    ends h step (record {
                      stored = stored;
                      blocked = blocks_of-append vehicle.id block db.blocks differs;
                    })
              ]
        ]
