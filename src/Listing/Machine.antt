-- ===== src/Listing/Machine.antt =====
-- What a request to a listing endpoint that is answered does to the vehicles and the outbox.
pub mod Requests
use car_flow_mvp.Base.{
  ℕ, ◌≡◌, refl, sym, ap, subst, ◌∙◌, Bool, true, false, not, Option, none, some, List, [], ◌∷◌,
  ◌++◌, ◌==◌, is_some, inl, inr, Bool-cases, Option-cases, arith,
}
use car_flow_mvp.Base.Result.{Result, ok, err}
use car_flow_mvp.Base.Exec.{continue}
use car_flow_mvp.Base.Table.{find, find-key}
use car_flow_mvp.Shared.Http.{server_error}
use car_flow_mvp.Shared.Auth.{Claims}
use car_flow_mvp.Shared.Outbox.{OutboxRow}
use car_flow_mvp.Shared.Outbox.Ids.{ids_onto}
use car_flow_mvp.Shared.Consumer.{contains}
use car_flow_mvp.Shared.Endpoint.Repeated.{built-ok}
use car_flow_mvp.Booking.ListingClient.{pending, approved, declined}
use car_flow_mvp.Base.Table.{replace}
use car_flow_mvp.Listing.{
  Vehicle, VehicleMessage, AvailabilityBlock, vehicle_not_found, not_vehicle_owner,
  invalid_approval_transition, vehicle_updated, vehicle_approved, ListingDb, ListingError,
  same_approval, snapshot, updated, vehicle_key, get_by_id, save, get_owned_vehicle, create_vehicle,
  update_vehicle, approve_vehicle, reject_vehicle, insert_block, add_availability_block,
}
use car_flow_mvp.Listing.Schemas.{ListingBody, VehicleFields}
use car_flow_mvp.Listing.Routes.{
  owner_failure, decision_failure, block_failure, of_vehicle, of_block,
}
use car_flow_mvp.Listing.Routes.Repetition.{
  Request, creating, updating, approving, rejecting, blocking, target,
}

module _ {C : Type 0} where
  abbrev pub empty_db : ListingDb C
  empty_db = record { vehicles = []; blocks = []; outbox = []; keys = [] }

  -- The ids that `uuid4` gave are new.
  abbrev pub is_fresh : Request C → ListingDb C → Bool
  is_fresh (creating vehicle_id payload) db =
      not (is_some (find vehicle_key vehicle_id db.vehicles))
  is_fresh (updating event_id vehicle_id payload) db =
      not (contains event_id (ids_onto [] db.outbox))
  is_fresh (approving event_id vehicle_id) db = not (contains event_id (ids_onto [] db.outbox))
  is_fresh (rejecting vehicle_id) db = true
  is_fresh (blocking block_id vehicle_id start_date end_date) db = true

  -- What changes: a vehicle is added, rewritten with a message about it, rewritten by its rejection
  -- without a message, or none of it.
  pub data Change (db db' : ListingDb C) : Type 0 where
    added :
        (vehicle : Vehicle C)
        → find vehicle_key vehicle.id db.vehicles ≡ none
        → vehicle.approval_status ≡ pending
        → db'.vehicles ≡ db.vehicles ++ vehicle ∷ []
        → db'.outbox ≡ db.outbox
        → Change db db'
    told_of :
        (row : OutboxRow (VehicleMessage C)) (old : Vehicle C)
        → find vehicle_key (snapshot row.message).id db.vehicles ≡ some old
        → contains row.id (ids_onto [] db.outbox) ≡ false
        → db'.vehicles ≡ replace vehicle_key (snapshot row.message) db.vehicles
        → db'.outbox ≡ db.outbox ++ row ∷ []
        → Change db db'
    rejected :
        (vehicle old : Vehicle C)
        → find vehicle_key vehicle.id db.vehicles ≡ some old
        → same_approval old.approval_status approved ≡ false
        → same_approval vehicle.approval_status approved ≡ false
        → db'.vehicles ≡ replace vehicle_key vehicle db.vehicles
        → db'.outbox ≡ db.outbox
        → Change db db'
    kept : db'.vehicles ≡ db.vehicles → db'.outbox ≡ db.outbox → Change db db'
