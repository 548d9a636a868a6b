-- ===== src/Telemetry/Batches.antt =====
-- What a batch of readings leaves: services/telemetry/consumer.py.
use mathlib.Core.List.{append_assoc, append-nil}
use car_flow_mvp.Base.{
  ℕ, ◌≡◌, refl, sym, ap, ◌∙◌, Bool, false, Option, some, List, [], ◌∷◌, ◌++◌, ◌==◌, ==→eq,
  if◌then◌else◌, inl, inr, Bool-cases, ⊤, ◌||◌, arith,
}
use car_flow_mvp.Telemetry.{
  Reading, Position, Kept, put, build_batch_onto, build_batch, position_of, write_latest_position,
  write_latest, consume_batch,
}

module _ {N : Type 0} where
  -- The position that readings in the order of arrival tell of a vehicle, from the one that was known.
  abbrev pub followed : ℕ → Option (Position N) → List (Reading N) → Option (Position N)
  followed i known [] = known
  followed i known (r ∷ records) =
      followed i (if r.vehicle_id == i then some (position_of r) else known) records

  write_same :
      (latest : List (Reading N)) (p q : ℕ → Option (Position N)) (i : ℕ)
      → p i ≡ q i
      → write_latest latest p i ≡ write_latest latest q i
  write_same [] p q i e = e
  write_same (r ∷ latest) p q i e =
      write_same latest (write_latest_position r p) (write_latest_position r q) i (rw (e) refl)

  abbrev has : ℕ → List (Reading N) → Bool
  has i [] = false
  has i (r ∷ latest) = (r.vehicle_id == i) || has i latest

  -- The keys of a dict differ.
  abbrev IsDict : List (Reading N) → Type 0
  IsDict [] = ⊤
  IsDict (r ∷ latest) = (has r.vehicle_id latest ≡ false) × IsDict latest

  unwritten :
      (latest : List (Reading N)) (p : ℕ → Option (Position N)) (i : ℕ)
      → has i latest ≡ false
      → write_latest latest p i ≡ p i
  unwritten [] p i absent = refl
  unwritten (r ∷ latest) p i absent =
      let other : (r.vehicle_id == i) ≡ false = ground arith in
      unwritten latest (write_latest_position r p) i (ground arith) ∙ rw (other) refl

  has-put :
      (i : ℕ) (packet : Reading N) (latest : List (Reading N))
      → has i latest ≡ false
      → (packet.vehicle_id == i) ≡ false
      → has i (put packet latest) ≡ false
  unfolding put
  has-put i packet [] absent other = rw (other) refl
  has-put i packet (r ∷ latest) absent other = ground (arith, has-put i packet latest)

  put-IsDict :
      (packet : Reading N) (latest : List (Reading N)) → IsDict latest → IsDict (put packet latest)
  unfolding put
  put-IsDict packet [] d = (refl, tt)
  put-IsDict packet (r ∷ latest) d = elim (Bool-cases (r.vehicle_id == packet.vehicle_id)) [
    | inl same ↦
        rw (same)
          (ap (λ k. has k latest) (sym (==→eq r.vehicle_id packet.vehicle_id same)) ∙ d.0, d.1)
    | inr other ↦
        rw (other)
          (has-put r.vehicle_id packet latest d.0 (ground arith), put-IsDict packet latest d.1)
  ]

  -- What a dict writes, once a key of it is set.
  put_last :
      (packet : Reading N) (latest : List (Reading N)) (p : ℕ → Option (Position N)) (i : ℕ)
      → IsDict latest
      → write_latest (put packet latest) p i
        ≡ (if packet.vehicle_id == i then some (position_of packet) else write_latest latest p i)
  unfolding put
  put_last packet [] p i d = refl
  put_last packet (r ∷ latest) p i d = elim (Bool-cases (r.vehicle_id == packet.vehicle_id)) [
    | inl same ↦ elim (Bool-cases (packet.vehicle_id == i)) [
      | inl here ↦
          let absent : has i latest ≡ false =
            ap (λ k. has k latest)
              (sym (==→eq r.vehicle_id packet.vehicle_id same ∙ ==→eq packet.vehicle_id i here))
            ∙ d.0 in
          rw (same, here)
            (unwritten latest (write_latest_position packet p) i absent ∙ rw (here) refl)
      | inr other ↦
          let other' : (r.vehicle_id == i) ≡ false = ground arith in
          rw (same, other)
            (write_same latest (write_latest_position packet p) (write_latest_position r p) i
              (rw (other, other') refl))
    ]
    | inr other ↦ rw (other) (put_last packet latest (write_latest_position r p) i d.1)
  ]

  batch_of :
      (records documents latest : List (Reading N)) (p : ℕ → Option (Position N))
      → IsDict latest
      → ((build_batch_onto documents latest records).0 ≡ documents ++ records)
        × ((i : ℕ)
            → write_latest (build_batch_onto documents latest records).1 p i
              ≡ followed i (write_latest latest p i) records)
  batch_of [] documents latest p d = (sym (append-nil documents), λ i. refl)
  batch_of (packet ∷ records) documents latest p d =
      let (all, last) =
        batch_of records (documents ++ packet ∷ []) (put packet latest) p
          (put-IsDict packet latest d) in
      (
        all ∙ append_assoc documents (packet ∷ []) records,
        λ i. last i ∙ ap (λ known. followed i known records) (put_last packet latest p i d),
      )

  -- A batch is kept whole and in order; the position of each vehicle is afterwards the one that the
  -- batch's readings, followed one by one, tell last, and the old one where none is of the vehicle.
  pub consume_batch_follows :
      (records : List (Reading N)) (kept : Kept N)
      → ((consume_batch records kept).packets ≡ kept.packets ++ records)
        × ((i : ℕ)
            → (consume_batch records kept).positions i ≡ followed i (kept.positions i) records)
  unfolding consume_batch build_batch
  consume_batch_follows records kept =
      let (all, last) = batch_of records [] [] kept.positions tt in
      (ap (λ ds. kept.packets ++ ds) all, last)
