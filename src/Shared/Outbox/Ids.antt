-- ===== src/Shared/Outbox/Ids.antt =====
-- The ids of the rows of an outbox, the newest first, and that no two rows have one id.
use car_flow_mvp.Base.{ℕ, ◌≡◌, refl, false, List, [], ◌∷◌, ◌++◌, ⊤}
use car_flow_mvp.Shared.Consumer.{contains}
use car_flow_mvp.Shared.Outbox.{OutboxRow}

module _ {M : Type 0} where
  abbrev pub ids_onto : List ℕ → List (OutboxRow M) → List ℕ
  ids_onto seen [] = seen
  ids_onto seen (row ∷ rows) = ids_onto (row.id ∷ seen) rows

  abbrev pub Distinct : List ℕ → List (OutboxRow M) → Type 0
  Distinct seen [] = ⊤
  Distinct seen (row ∷ rows) = (contains row.id seen ≡ false) × Distinct (row.id ∷ seen) rows

  pub ids_onto-append :
      (seen : List ℕ) (rows : List (OutboxRow M)) (row : OutboxRow M)
      → ids_onto seen (rows ++ row ∷ []) ≡ row.id ∷ ids_onto seen rows
  ids_onto-append seen [] row = refl
  ids_onto-append seen (r ∷ rows) row = ids_onto-append (r.id ∷ seen) rows row

  pub Distinct-append :
      (seen : List ℕ) (rows : List (OutboxRow M)) (row : OutboxRow M)
      → Distinct seen rows
      → contains row.id (ids_onto seen rows) ≡ false
      → Distinct seen (rows ++ row ∷ [])
  Distinct-append seen [] row d new = (new, tt)
  Distinct-append seen (r ∷ rows) row d new = (d.0, Distinct-append (r.id ∷ seen) rows row d.1 new)

  pub Distinct-middle :
      (seen : List ℕ) (before : List (OutboxRow M)) (row : OutboxRow M) (after : List (OutboxRow M))
      → Distinct seen (before ++ row ∷ after)
      → contains row.id (ids_onto seen before) ≡ false
  Distinct-middle seen [] row after d = d.0
  Distinct-middle seen (r ∷ before) row after d = Distinct-middle (r.id ∷ seen) before row after d.1
