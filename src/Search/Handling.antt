-- ===== src/Search/Handling.antt =====
-- What the handling of one message does to the index: services/search/consumers.py.
use car_flow_mvp.Base.{
  ℕ, ◌≡◌, refl, sym, ap, subst, ◌∙◌, true, false, Option, none, some, List, [], ◌∷◌, ◌++◌, ◌==◌,
  ==→eq, inl, inr, Bool-cases, ⊤, arith,
}
use car_flow_mvp.Base.Result.{Result, ok, err}
use car_flow_mvp.Shared.Outbox.{OutboxRow, envelope_of}
use car_flow_mvp.Shared.Outbox.Ids.{ids_onto, ids_onto-append}
use car_flow_mvp.Shared.Consumer.{contains}
use car_flow_mvp.Booking.ListingClient.{approved}
use car_flow_mvp.Listing.{snapshot, Vehicle, VehicleMessage, same_approval}
use car_flow_mvp.Search.Documents.{Document, vehicle_to_document}
use car_flow_mvp.Search.Stores.{Elastic, Redis, Deletion, deleted, not_found, unavailable}
use car_flow_mvp.Search.Service.{
  SearchError, es_unavailable, Stores, upsert_vehicle, delete_vehicle, handle_vehicle_event,
  claim_event, process,
}
use car_flow_mvp.Search.Projection.{after, heard, after_same, told-append}

module _ {S R C : Type 0} (elastic : Elastic S C) (redis : Redis R) where
  -- The index is as it was, but for what the vehicle's new row makes of its document.
  abbrev pub Follows : Vehicle C → Stores S R → Stores S R → Type 0
  Follows v s s' =
      (s'.redis ≡ s.redis) × ((i : ℕ) → elastic.get s'.es i ≡ after v (elastic.get s.es) i)

  ends :
      (v : Vehicle C) (s : Stores S R) {out : Result SearchError ⊤ × Stores S R} {s' t : Stores S R}
      → out ≡ (ok tt, s')
      → out ≡ (ok tt, t)
      → Follows v s t
      → Follows v s s'
  ends v s {out} {s'} {t} h step f =
      subst (Follows v s) (ap (λ (o : Result SearchError ⊤ × Stores S R). o.1) (sym step ∙ h)) f

  fails :
      {X : Type 0} {out : Result SearchError ⊤ × Stores S R} {s' t : Stores S R}
      → out ≡ (ok tt, s')
      → out ≡ (err es_unavailable, t)
      → X
  fails h step = cc

  deletes :
      (v : Vehicle C) (s s' : Stores S R) (d : Deletion S)
      → elastic.delete v.id s.es ≡ d
      → same_approval v.approval_status approved ≡ false
      → handle_vehicle_event elastic redis v s ≡ (ok tt, s')
      → Follows v s s'
  unfolding handle_vehicle_event delete_vehicle
  deletes v s s' (deleted es) e hidden h =
      let step : handle_vehicle_event elastic redis v s ≡ (ok tt, record s { es = es }) =
        rw (hidden, e) in
      ends v s h step (refl, λ i. rw (hidden) (elastic.get-delete v.id s.es es e i))
  deletes v s s' not_found e hidden h =
      let step : handle_vehicle_event elastic redis v s ≡ (ok tt, s) = rw (hidden, e) in
      let absent = elastic.get-not_found v.id s.es e in
      ends v s h step (
        refl,
        λ i. elim (Bool-cases (v.id == i)) [
          | inl same ↦ rw (same, hidden) (ap (elastic.get s.es) (sym (==→eq v.id i same)) ∙ absent)
          | inr other ↦ rw (other)
        ],
      )
  deletes v s s' unavailable e hidden h =
      let step : handle_vehicle_event elastic redis v s ≡ (err es_unavailable, s) =
        rw (hidden, e) in
      fails h step

  indexes :
      (v : Vehicle C) (s s' : Stores S R) (o : Option S)
      → elastic.index v.id (vehicle_to_document v) s.es ≡ o
      → same_approval v.approval_status approved ≡ true
      → handle_vehicle_event elastic redis v s ≡ (ok tt, s')
      → Follows v s s'
  unfolding handle_vehicle_event upsert_vehicle
  indexes v s s' (some es) e listed h =
      let step : handle_vehicle_event elastic redis v s ≡ (ok tt, record s { es = es }) =
        rw (listed, e) in
      ends v s h step
        (refl, λ i. rw (listed) (elastic.get-index v.id (vehicle_to_document v) s.es es e i))
  indexes v s s' none e listed h =
      let step : handle_vehicle_event elastic redis v s ≡ (err es_unavailable, s) =
        rw (listed, e) in
      fails h step

  pub handled :
      (v : Vehicle C) (s s' : Stores S R)
      → handle_vehicle_event elastic redis v s ≡ (ok tt, s')
      → Follows v s s'
  handled v s s' h = elim (Bool-cases (same_approval v.approval_status approved)) [
    | inl listed ↦ indexes v s s' _ refl listed h
    | inr hidden ↦ deletes v s s' _ refl hidden h
  ]

  -- The index holds what the messages told, and no other message is claimed.
  pub record IsSynced (rows : List (OutboxRow (VehicleMessage C))) (s : Stores S R) : Type 0 where
    pub held : (i : ℕ) → elastic.get s.es i ≡ heard rows i
    pub claims : (i : ℕ) → redis.is_set s.redis i ≡ true → contains i (ids_onto [] rows) ≡ true

  module _ (row : OutboxRow (VehicleMessage C)) (s s' : Stores S R) where
    abbrev Runs : Type 0
    Runs = process elastic redis (envelope_of row) s ≡ (ok tt, s')

    abbrev claimed_state : Stores S R
    claimed_state = record s { redis = redis.set_nx row.id s.redis }

    skips : redis.is_set s.redis row.id ≡ true → Runs → s' ≡ claimed_state
    unfolding process claim_event
    skips set h =
        let step : process elastic redis (envelope_of row) s ≡ (ok tt, claimed_state) =
          rw (set) refl in
        ap (λ (o : Result SearchError ⊤ × Stores S R). o.1) (sym h ∙ step)

    works :
        redis.is_set s.redis row.id ≡ false → Runs → Follows (snapshot row.message) claimed_state s'
    unfolding process claim_event
    works unset h =
        let step : process elastic redis (envelope_of row) s
            ≡ handle_vehicle_event elastic redis (snapshot row.message) claimed_state =
          rw (unset) refl in
        handled (snapshot row.message) claimed_state s' (sym step ∙ h)

  claims_after :
      (rows : List (OutboxRow (VehicleMessage C))) (row : OutboxRow (VehicleMessage C)) (r : R)
      → ((i : ℕ) → redis.is_set r i ≡ true → contains i (ids_onto [] rows) ≡ true)
      → (i : ℕ) → redis.is_set (redis.set_nx row.id r) i ≡ true
      → contains i (ids_onto [] (rows ++ row ∷ [])) ≡ true
  claims_after rows row r known i h =
      ground (arith, ids_onto-append [] rows row, redis.is_set-set_nx row.id r i, known i)

  claims_again :
      (rows : List (OutboxRow (VehicleMessage C))) (row : OutboxRow (VehicleMessage C)) (r : R)
      → ((i : ℕ) → redis.is_set r i ≡ true → contains i (ids_onto [] (rows ++ row ∷ [])) ≡ true)
      → (i : ℕ) → redis.is_set (redis.set_nx row.id r) i ≡ true
      → contains i (ids_onto [] (rows ++ row ∷ [])) ≡ true
  claims_again rows row r known i h =
      ground (arith, ids_onto-append [] rows row, redis.is_set-set_nx row.id r i, known i)

  module _ (rows : List (OutboxRow (VehicleMessage C))) (row : OutboxRow (VehicleMessage C))
      (s s' : Stores S R) where
    pub first-IsSynced :
        contains row.id (ids_onto [] rows) ≡ false
        → Runs row s s'
        → IsSynced rows s
        → IsSynced (rows ++ row ∷ []) s'
    first-IsSynced new h y = elim (Bool-cases (redis.is_set s.redis row.id)) [
      | inl set ↦ let known = y.claims row.id set in cc
      | inr unset ↦
          let (same, follows) = works row s s' unset h in
          record {
            held = λ i.
                follows i
                ∙ after_same (snapshot row.message) (elastic.get s.es) (heard rows) i (y.held i)
                ∙ sym (told-append (λ j. none) rows row i);
            claims = λ i set.
                claims_after rows row s.redis y.claims i
                  (subst (λ r. redis.is_set r i ≡ true) same set);
          }
    ]

    after_twice :
        (v : Vehicle C) (g : ℕ → Option (Document C)) (i : ℕ) → after v (after v g) i ≡ after v g i
    after_twice v g i = elim (Bool-cases (v.id == i)) [
      | inl same ↦ rw (same)
      | inr other ↦ rw (other)
    ]

    pub again-IsSynced :
        Runs row s s' → IsSynced (rows ++ row ∷ []) s → IsSynced (rows ++ row ∷ []) s'
    again-IsSynced h y = elim (Bool-cases (redis.is_set s.redis row.id)) [
      | inl set ↦
          let same = skips row s s' set h in
          record {
            held = λ i. ap (λ t. elastic.get t.es i) same ∙ y.held i;
            claims = λ i set.
                claims_again rows row s.redis y.claims i
                  (subst (λ t. redis.is_set t.redis i ≡ true) same set);
          }
      | inr unset ↦
          let (same, follows) = works row s s' unset h in
          let now = told-append (λ j. none) rows row in
          record {
            held = λ i.
                follows i
                ∙ after_same (snapshot row.message) (elastic.get s.es)
                    (after (snapshot row.message) (heard rows)) i (y.held i ∙ now i)
                ∙ after_twice (snapshot row.message) (heard rows) i
                ∙ sym (now i);
            claims = λ i set.
                claims_again rows row s.redis y.claims i
                  (subst (λ r. redis.is_set r i ≡ true) same set);
          }
    ]
