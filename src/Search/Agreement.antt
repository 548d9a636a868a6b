-- ===== src/Search/Agreement.antt =====
-- The index holds the approved vehicles of the listing service.
use mathlib.Core.List.{append_assoc, append-nil}
use car_flow_mvp.Base.{
  ℕ, ◌≡◌, refl, sym, ap, subst, ◌∙◌, true, false, none, List, [], ◌∷◌, ◌++◌, inl, inr, ==_refl,
}
use car_flow_mvp.Base.Result.{ok, err}
use car_flow_mvp.Base.Table.{find}
use car_flow_mvp.Shared.Outbox.{OutboxRow, Envelope, envelope_of}
use car_flow_mvp.Shared.Outbox.Ids.{Distinct, Distinct-middle}
use car_flow_mvp.Booking.ListingClient.{approved}
use car_flow_mvp.Listing.{snapshot, VehicleMessage, ListingDb, vehicle_key, same_approval}
use car_flow_mvp.Listing.Machine.{Change, added, told_of, rejected, kept}
use car_flow_mvp.Listing.Machine.Requests.{request-Change}
use car_flow_mvp.Search.Documents.{vehicle_to_document}
use car_flow_mvp.Search.Stores.{Elastic, Redis}
use car_flow_mvp.Search.Service.{
  es_unavailable, Stores, upsert_vehicle, handle_vehicle_event, claim_event, process,
}
use car_flow_mvp.Search.Projection.{shown, heard, Change-IsTold}
use car_flow_mvp.Search.Handling.{IsSynced, first-IsSynced, again-IsSynced}
use car_flow_mvp.Search.Machine.{
  System, Reach, start, request, keys, deliver, crash, expire, IsInStep,
}

same_rest : {A : Type 0} (xs ys zs : List A) → xs ++ ys ≡ xs ++ zs → ys ≡ zs
same_rest [] ys zs e = e
same_rest (x ∷ xs) ys zs e = same_rest xs ys zs (cc)

no_rest : {A X : Type 0} (xs : List A) (y : A) (ys : List A) → xs ≡ xs ++ y ∷ ys → X
no_rest [] y ys e = cc
no_rest (x ∷ xs) y ys e = no_rest xs y ys (cc)

module _ {S R C : Type 0} (elastic : Elastic S C) (redis : Redis R) where
  grows :
      (db db' : ListingDb C)
      → Change db db'
      → (more : List (OutboxRow (VehicleMessage C))) × (db'.outbox ≡ db.outbox ++ more)
  grows db db' (added v n w r sent) = ([], sent ∙ sym (append-nil db.outbox))
  grows db db' (told_of row o f n r sent) = (row ∷ [], sent)
  grows db db' (rejected v o f h h' r sent) = ([], sent ∙ sym (append-nil db.outbox))
  grows db db' (kept r sent) = ([], sent ∙ sym (append-nil db.outbox))

  later :
      (xs ys more : List (OutboxRow (VehicleMessage C))) (db db' : ListingDb C)
      → db.outbox ≡ xs ++ ys
      → db'.outbox ≡ db.outbox ++ more
      → db'.outbox ≡ xs ++ (ys ++ more)
  later xs ys more db db' e grown = grown ∙ ap (λ r. r ++ more) e ∙ append_assoc xs ys more

  changed-IsInStep :
      (s : System S R C) (db' : ListingDb C)
      → Change s.listing db'
      → IsInStep elastic redis s
      → IsInStep elastic redis (record s { listing = db' })
  changed-IsInStep s db' c y =
      let (more, grown) = grows s.listing db' c in
      let (rest, sent) = y.prefix in
      record {
        is_told = Change-IsTold s.listing db' c y.is_told;
        prefix = (rest ++ more, later s.committed rest more s.listing db' sent grown);
        synced = elim y.synced [
          | inl now ↦ inl now
          | inr (row, after, waiting, ahead) ↦ inr (
            row,
            after ++ more,
            later s.committed (row ∷ after) more s.listing db' waiting grown,
            ahead,
          )
        ];
      }

  module _ (row : OutboxRow (VehicleMessage C)) (rest : List (OutboxRow (VehicleMessage C)))
      (s : System S R C) (stores : Stores S R) (sent : s.listing.outbox ≡ s.committed ++ row ∷ rest)
      (ran : process elastic redis (envelope_of row) s.stores ≡ (ok tt, stores)) where
    -- After the next message was handled, for the first time or again, the index holds what it told.
    next-IsSynced :
        IsInStep elastic redis s → IsSynced elastic redis (s.committed ++ row ∷ []) stores
    next-IsSynced y = elim y.synced [
      | inl now ↦
          first-IsSynced elastic redis s.committed row s.stores stores
            (Distinct-middle [] s.committed row rest (subst (Distinct []) sent y.is_told.distinct))
            ran now
      | inr (other, after, waiting, ahead) ↦
          let tails = same_rest s.committed (other ∷ after) (row ∷ rest) (sym waiting ∙ sent) in
          let same : other ≡ row = cc in
          again-IsSynced elastic redis s.committed row s.stores stores ran
            (subst (λ r. IsSynced elastic redis (s.committed ++ r ∷ []) s.stores) same ahead)
    ]

  expired :
      (rows : List (OutboxRow (VehicleMessage C))) (s : Stores S R) (claims : R)
      → ((i : ℕ) → redis.is_set claims i ≡ true → redis.is_set s.redis i ≡ true)
      → IsSynced elastic redis rows s
      → IsSynced elastic redis rows (record s { redis = claims })
  expired rows s claims fewer y = record {
    held = y.held;
    claims = λ i set. y.claims i (fewer i set);
  }

  Reach-IsInStep : {s : System S R C} → Reach elastic redis s → IsInStep elastic redis s
  unfolding find
  Reach-IsInStep (start stores empty unset) = record {
    is_told = record { distinct = tt; told_shown = λ i. refl };
    prefix = ([], refl);
    synced = inl (record { held = empty; claims = λ i set. let no = unset i in cc });
  }
  Reach-IsInStep (request is_latitude is_longitude q claims body {s = s} {db' = db'} r fresh h) =
      changed-IsInStep s db'
        (request-Change is_latitude is_longitude q claims s.listing db' body fresh h)
        (Reach-IsInStep r)
  Reach-IsInStep (keys rows {s = s} r) = changed-IsInStep s _ (kept refl refl) (Reach-IsInStep r)
  Reach-IsInStep (deliver row rest {s = s} {stores = stores} r sent h) =
      let y = Reach-IsInStep r in
      record {
        is_told = y.is_told;
        prefix = (rest, sent ∙ sym (append_assoc s.committed (row ∷ []) rest));
        synced = inl (next-IsSynced row rest s stores sent h y);
      }
  Reach-IsInStep (crash row rest {s = s} {stores = stores} r sent h) =
      let y = Reach-IsInStep r in
      record {
        is_told = y.is_told;
        prefix = y.prefix;
        synced = inr (row, rest, sent, next-IsSynced row rest s stores sent h y);
      }
  Reach-IsInStep (expire claims {s = s} r fewer) =
      let y = Reach-IsInStep r in
      record {
        is_told = y.is_told;
        prefix = y.prefix;
        synced = elim y.synced [
          | inl now ↦ inl (expired s.committed s.stores claims fewer now)
          | inr (row, rest, waiting, ahead) ↦
              inr
                (row, rest, waiting, expired (s.committed ++ row ∷ []) s.stores claims fewer ahead)
        ];
      }

  -- Once the consumer has committed every message that the listing service has sent, the index has for
  -- each id the document of the vehicle that is stored under it, if that vehicle is approved, and
  -- nothing otherwise: whatever requests were answered before, however often the consumer crashed
  -- between the handling and the commit of a message, and whenever claims expired in Redis; as long as
  -- no call of Elasticsearch failed.
  pub index_is_projection :
      {s : System S R C} (i : ℕ)
      → Reach elastic redis s
      → s.listing.outbox ≡ s.committed
      → elastic.get s.stores.es i ≡ shown (find vehicle_key i s.listing.vehicles)
  index_is_projection {s} i r caught_up =
      let y = Reach-IsInStep r in
      elim y.synced [
        | inl now ↦ now.held i ∙ ap (λ rows. heard rows i) (sym caught_up) ∙ y.is_told.told_shown i
        | inr (row, rest, waiting, ahead) ↦ no_rest s.committed row rest (sym caught_up ∙ waiting)
      ]

  -- A message about an approved vehicle that comes while Elasticsearch does not answer is lost: its
  -- handling raises after the event was claimed, and when the consumer reads the message again, it
  -- passes over it, and the index stays as it was.
  pub failed_event_lost :
      (event_id : ℕ) (message : VehicleMessage C) (s : Stores S R)
      → redis.is_set s.redis event_id ≡ false
      → same_approval (snapshot message).approval_status approved ≡ true
      → elastic.index (snapshot message).id (vehicle_to_document (snapshot message)) s.es ≡ none
      → let envelope : Envelope (VehicleMessage C) = record {
        event_id = event_id;
        message = message;
      } in
        let claimed : Stores S R = record s { redis = redis.set_nx event_id s.redis } in
        (process elastic redis envelope s ≡ (err es_unavailable, claimed))
        × (process elastic redis envelope claimed
            ≡ (ok tt, record claimed { redis = redis.set_nx event_id claimed.redis }))
  unfolding process claim_event handle_vehicle_event upsert_vehicle
  failed_event_lost event_id message s unset listed down = (
    rw (unset, listed, down),
    rw (redis.is_set-set_nx event_id s.redis event_id, ==_refl event_id),
  )
