-- ===== src/Search/Projection.antt =====
-- What the listing service's messages tell of its vehicles, and what of it the search may show.
use car_flow_mvp.Base.{
  ℕ, ◌≡◌, refl, sym, ap, subst, ◌∙◌, false, Option, none, some, List, [], ◌∷◌, ◌++◌, ◌==◌, ==→eq,
  if◌then◌else◌, inl, inr, Bool-cases, Option-cases,
}
use car_flow_mvp.Base.Table.{find, replace, find-replace, find-append_one}
use car_flow_mvp.Shared.Outbox.{OutboxRow}
use car_flow_mvp.Shared.Outbox.Ids.{Distinct, Distinct-append}
use car_flow_mvp.Booking.ListingClient.{pending, approved}
use car_flow_mvp.Listing.{snapshot, Vehicle, VehicleMessage, ListingDb, same_approval, vehicle_key}
use car_flow_mvp.Listing.Machine.{Change, added, told_of, rejected, kept}
use car_flow_mvp.Search.Documents.{Document, vehicle_to_document}

module _ {C : Type 0} where
  -- The document that the search may show of a row: an approved vehicle's, and no other.
  abbrev pub shown : Option (Vehicle C) → Option (Document C)
  shown none = none
  shown (some vehicle) =
      if same_approval vehicle.approval_status approved
      then some (vehicle_to_document vehicle)
      else none

  abbrev pub after : Vehicle C → (ℕ → Option (Document C)) → ℕ → Option (Document C)
  after vehicle g i = if vehicle.id == i then shown (some vehicle) else g i

  -- The documents after messages that were heard one by one.
  abbrev pub told :
      (ℕ → Option (Document C)) → List (OutboxRow (VehicleMessage C)) → ℕ → Option (Document C)
  told g [] i = g i
  told g (row ∷ rows) i = told (after (snapshot row.message) g) rows i

  abbrev pub heard : List (OutboxRow (VehicleMessage C)) → ℕ → Option (Document C)
  heard rows = told (λ i. none) rows

  pub told-append :
      (g : ℕ → Option (Document C)) (rows : List (OutboxRow (VehicleMessage C)))
      (row : OutboxRow (VehicleMessage C)) (i : ℕ)
      → told g (rows ++ row ∷ []) i ≡ after (snapshot row.message) (told g rows) i
  told-append g [] row i = refl
  told-append g (r ∷ rows) row i = told-append (after (snapshot r.message) g) rows row i

  pub after_same :
      (v : Vehicle C) (g g' : ℕ → Option (Document C)) (i : ℕ)
      → g i ≡ g' i
      → after v g i ≡ after v g' i
  after_same v g g' i e = rw (e)

  -- The messages that a database has sent tell of its vehicles what the search may show.
  pub record IsTold (db : ListingDb C) : Type 0 where
    pub distinct : Distinct [] db.outbox
    pub told_shown : (i : ℕ) → heard db.outbox i ≡ shown (find vehicle_key i db.vehicles)

  module _ (db db' : ListingDb C) where
    same_rows : db'.outbox ≡ db.outbox → Distinct [] db.outbox → Distinct [] db'.outbox
    same_rows e d = subst (Distinct []) (sym e) d

    added_shown :
        (v : Vehicle C) (i : ℕ)
        → find vehicle_key v.id db.vehicles ≡ none
        → v.approval_status ≡ pending
        → shown (find vehicle_key i (db.vehicles ++ v ∷ []))
          ≡ shown (find vehicle_key i db.vehicles)
    added_shown v i new waiting = elim (Bool-cases (v.id == i)) [
      | inl same ↦
          let absent : find vehicle_key i db.vehicles ≡ none =
            subst (λ j. find vehicle_key j db.vehicles ≡ none) (==→eq v.id i same) new in
          rw (find-append_one vehicle_key i v db.vehicles, absent, same, waiting)
      | inr other ↦ elim (Option-cases (find vehicle_key i db.vehicles)) [
        | inl absent ↦ rw (find-append_one vehicle_key i v db.vehicles, absent, other)
        | inr (w, found) ↦ rw (find-append_one vehicle_key i v db.vehicles, found)
      ]
    ]

    replaced_shown :
        (v old : Vehicle C) (i : ℕ)
        → find vehicle_key v.id db.vehicles ≡ some old
        → shown (find vehicle_key i (replace vehicle_key v db.vehicles))
          ≡ after v (λ j. shown (find vehicle_key j db.vehicles)) i
    replaced_shown v old i found = elim (Bool-cases (v.id == i)) [
      | inl same ↦
          let here : find vehicle_key i db.vehicles ≡ some old =
            subst (λ j. find vehicle_key j db.vehicles ≡ some old) (==→eq v.id i same) found in
          rw (find-replace vehicle_key i v db.vehicles, same, here)
      | inr other ↦ rw (find-replace vehicle_key i v db.vehicles, other)
    ]

    rejected_shown :
        (v old : Vehicle C) (i : ℕ)
        → find vehicle_key v.id db.vehicles ≡ some old
        → same_approval old.approval_status approved ≡ false
        → same_approval v.approval_status approved ≡ false
        → after v (λ j. shown (find vehicle_key j db.vehicles)) i
          ≡ shown (find vehicle_key i db.vehicles)
    rejected_shown v old i found hidden hidden' = elim (Bool-cases (v.id == i)) [
      | inl same ↦
          let here : find vehicle_key i db.vehicles ≡ some old =
            subst (λ j. find vehicle_key j db.vehicles ≡ some old) (==→eq v.id i same) found in
          rw (same, here, hidden, hidden')
      | inr other ↦ rw (other)
    ]

    pub Change-IsTold : Change db db' → IsTold db → IsTold db'
    Change-IsTold (added v new waiting rows sent) t = record {
      distinct = same_rows sent t.distinct;
      told_shown = λ i.
          ap (λ r. heard r i) sent
          ∙ t.told_shown i
          ∙ sym (added_shown v i new waiting)
          ∙ ap (λ vs. shown (find vehicle_key i vs)) (sym rows);
    }
    Change-IsTold (told_of row old found new rows sent) t = record {
      distinct = subst (Distinct []) (sym sent) (Distinct-append [] db.outbox row t.distinct new);
      told_shown = λ i.
          ap (λ r. heard r i) sent
          ∙ told-append (λ j. none) db.outbox row i
          ∙ after_same (snapshot row.message) (heard db.outbox)
              (λ j. shown (find vehicle_key j db.vehicles)) i (t.told_shown i)
          ∙ sym (replaced_shown (snapshot row.message) old i found)
          ∙ ap (λ vs. shown (find vehicle_key i vs)) (sym rows);
    }
    Change-IsTold (rejected v old found hidden hidden' rows sent) t = record {
      distinct = same_rows sent t.distinct;
      told_shown = λ i.
          ap (λ r. heard r i) sent
          ∙ t.told_shown i
          ∙ sym (rejected_shown v old i found hidden hidden')
          ∙ sym (replaced_shown v old i found)
          ∙ ap (λ vs. shown (find vehicle_key i vs)) (sym rows);
    }
    Change-IsTold (kept rows sent) t = record {
      distinct = same_rows sent t.distinct;
      told_shown = λ i.
          ap (λ r. heard r i) sent
          ∙ t.told_shown i
          ∙ ap (λ vs. shown (find vehicle_key i vs)) (sym rows);
    }
