-- ===== src/Search/Machine.antt =====
-- The listing service, the topic of its messages, and the search service that follows them.
use car_flow_mvp.Base.{ℕ, ◌≡◌, Bool, true, false, none, List, [], ◌∷◌, ◌++◌, ◌⊎◌}
use car_flow_mvp.Base.Result.{ok}
use car_flow_mvp.Shared.Auth.{Claims}
use car_flow_mvp.Shared.Outbox.{OutboxRow, envelope_of}
use car_flow_mvp.Shared.Idempotency.{IdempotencyRow}
use car_flow_mvp.Listing.{VehicleMessage, ListingDb}
use car_flow_mvp.Listing.Schemas.{ListingBody}
use car_flow_mvp.Listing.Routes.Repetition.{Request, target}
use car_flow_mvp.Listing.Machine.{empty_db, is_fresh}
use car_flow_mvp.Search.Stores.{Elastic, Redis}
use car_flow_mvp.Search.Service.{Stores, process}
use car_flow_mvp.Search.Projection.{IsTold}
use car_flow_mvp.Search.Handling.{IsSynced}

-- The listing service's database, the messages that the consumer has committed, and its stores.
pub record System (S R C : Type 0) : Type 0 where
  pub listing : ListingDb C
  pub committed : List (OutboxRow (VehicleMessage C))
  pub stores : Stores S R

module _ {S R C : Type 0} (elastic : Elastic S C) (redis : Redis R) where
  -- What happens: a request to the listing service is answered, or its table of keys changes; the
  -- consumer handles the next message and commits it, or crashes before the commit; claims expire.
  pub data Reach : System S R C → Type 0 where
    start :
        (stores : Stores S R)
        → ((i : ℕ) → elastic.get stores.es i ≡ none)
        → ((i : ℕ) → redis.is_set stores.redis i ≡ false)
        → Reach (record { listing = empty_db; committed = []; stores = stores })
    request :
        (is_latitude is_longitude : C → Bool) (q : Request C) (claims : Claims)
        (body : ListingBody C) {s : System S R C} {db' : ListingDb C}
        → Reach s
        → is_fresh q s.listing ≡ true
        → (target is_latitude is_longitude q).build claims s.listing ≡ (ok body, db')
        → Reach (record s { listing = db' })
    keys :
        (rows : List (IdempotencyRow (ListingBody C))) {s : System S R C}
        → Reach s
        → Reach (record s { listing = record s.listing { keys = rows } })
    deliver :
        (row : OutboxRow (VehicleMessage C)) (rest : List (OutboxRow (VehicleMessage C)))
        {s : System S R C} {stores : Stores S R}
        → Reach s
        → s.listing.outbox ≡ s.committed ++ row ∷ rest
        → process elastic redis (envelope_of row) s.stores ≡ (ok tt, stores)
        → Reach (record s { committed = s.committed ++ row ∷ []; stores = stores })
    crash :
        (row : OutboxRow (VehicleMessage C)) (rest : List (OutboxRow (VehicleMessage C)))
        {s : System S R C} {stores : Stores S R}
        → Reach s
        → s.listing.outbox ≡ s.committed ++ row ∷ rest
        → process elastic redis (envelope_of row) s.stores ≡ (ok tt, stores)
        → Reach (record s { stores = stores })
    expire :
        (claims : R) {s : System S R C}
        → Reach s
        → ((i : ℕ) → redis.is_set claims i ≡ true → redis.is_set s.stores.redis i ≡ true)
        → Reach (record s { stores = record s.stores { redis = claims } })

  -- The next message may already be in the index, though it is not committed.
  abbrev pub IsAhead : System S R C → Type 0
  IsAhead s =
      (row : OutboxRow (VehicleMessage C)) × (rest : List (OutboxRow (VehicleMessage C)))
      × (s.listing.outbox ≡ s.committed ++ row ∷ rest)
      × IsSynced elastic redis (s.committed ++ row ∷ []) s.stores

  -- The messages that were committed are the first of those that were sent.
  abbrev pub IsPrefix : System S R C → Type 0
  IsPrefix s =
      (rest : List (OutboxRow (VehicleMessage C))) × (s.listing.outbox ≡ s.committed ++ rest)

  pub record IsInStep (s : System S R C) : Type 0 where
    pub is_told : IsTold s.listing
    pub prefix : IsPrefix s
    pub synced : IsSynced elastic redis s.committed s.stores ⊎ IsAhead s
