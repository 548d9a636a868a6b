-- ===== src/Search/Service.antt =====
-- services/search/service.py, repository.py, redis_inbox.py and consumers.py: how the index follows the
-- messages of the listing service. There is no transaction over Redis and Elasticsearch: what was written
-- before an exception stays.
use car_flow_mvp.Base.{ℕ, Bool, true, false, not, Option, none, some, ⊤}
use car_flow_mvp.Base.Result.{ok, err}
use car_flow_mvp.Base.Exec.{Exec, when, ◌>>=◌}
use car_flow_mvp.Shared.Outbox.{Envelope}
use car_flow_mvp.Booking.ListingClient.{approved}
use car_flow_mvp.Listing.{Vehicle, VehicleMessage, snapshot, same_approval}
use car_flow_mvp.Search.Documents.{Document, vehicle_to_document}
use car_flow_mvp.Search.Stores.{Elastic, Redis, Deletion, deleted, not_found, unavailable}

-- An exception of the Elasticsearch client that nothing catches.
pub data SearchError : Type 0 where
  es_unavailable : SearchError

pub record Stores (S R : Type 0) : Type 0 where
  pub es : S
  pub redis : R

module _ {S R C : Type 0} (elastic : Elastic S C) (redis : Redis R) where
  abbrev pub Action : Type 0 → Type 0
  Action A = Exec (Stores S R) SearchError A

  abbrev pub indexed : Option S → Action ⊤
  indexed none s = (err es_unavailable, s)
  indexed (some es) s = (ok tt, record s { es = es })

  unfoldable pub upsert_vehicle : ℕ → Document C → Action ⊤
  upsert_vehicle vehicle_id document s = indexed (elastic.index vehicle_id document s.es) s

  -- `except NotFoundError: pass`
  abbrev pub removed : Deletion S → Action ⊤
  removed (deleted es) s = (ok tt, record s { es = es })
  removed not_found s = (ok tt, s)
  removed unavailable s = (err es_unavailable, s)

  unfoldable pub delete_vehicle : ℕ → Action ⊤
  delete_vehicle vehicle_id s = removed (elastic.delete vehicle_id s.es) s

  abbrev pub upsert_or_delete : Bool → Vehicle C → Action ⊤
  upsert_or_delete true vehicle = upsert_vehicle vehicle.id (vehicle_to_document vehicle)
  upsert_or_delete false vehicle = delete_vehicle vehicle.id

  unfoldable pub handle_vehicle_event : Vehicle C → Action ⊤
  handle_vehicle_event vehicle =
      upsert_or_delete (same_approval vehicle.approval_status approved) vehicle

  unfoldable pub claim_event : ℕ → Action Bool
  claim_event event_id s =
      (ok (not (redis.is_set s.redis event_id)), record s { redis = redis.set_nx event_id s.redis })

  -- `process`; both types of messages are in `LISTING_EVENT_TYPES`.
  unfoldable pub process : Envelope (VehicleMessage C) → Action ⊤
  process envelope = do
    claimed ← claim_event envelope.event_id
    when claimed (handle_vehicle_event (snapshot envelope.message))
