-- ===== src/Search/Backfill/Refreshed.antt =====
-- Vehicles that are handled one by one: what it makes of an index, and pages of their list.
use car_flow_mvp.Base.{
  ℕ, zero, suc, ◌+◌, ◌≡◌, refl, sym, ap, subst, ◌∙◌, true, Option, none, List, [], ◌∷◌, ◌++◌, ◌==◌,
  ==→eq, length, take, drop, inl, inr, Bool-cases, All, ⊤, arith,
}
use car_flow_mvp.Base.Table.{find}
use car_flow_mvp.Booking.ListingClient.{approved}
use car_flow_mvp.Listing.{Vehicle, same_approval, with_status, vehicle_key}
use car_flow_mvp.Search.Documents.{Document}
use car_flow_mvp.Search.Projection.{shown, after, after_same}

module _ {C : Type 0} where
  -- The documents after vehicles that were handled one by one.
  abbrev pub refreshed : (ℕ → Option (Document C)) → List (Vehicle C) → ℕ → Option (Document C)
  refreshed g [] i = g i
  refreshed g (v ∷ vs) i = refreshed (after v g) vs i

  -- No two rows have one id: the primary key.
  abbrev pub IsUnique : List (Vehicle C) → Type 0
  IsUnique [] = ⊤
  IsUnique (v ∷ vs) = (find vehicle_key v.id vs ≡ none) × IsUnique vs

  abbrev pub IsListed : Vehicle C → Type 0
  IsListed v = same_approval v.approval_status approved ≡ true

  pub with_status-IsListed : (vs : List (Vehicle C)) → All IsListed (with_status approved vs)
  with_status-IsListed [] = tt
  with_status-IsListed (v ∷ vs) = elim (Bool-cases (same_approval v.approval_status approved)) [
    | inl listed ↦ rw (listed) (listed, with_status-IsListed vs)
    | inr hidden ↦ rw (hidden) (with_status-IsListed vs)
  ]

  pub refreshed-append :
      (g : ℕ → Option (Document C)) (vs ws : List (Vehicle C)) (i : ℕ)
      → refreshed g (vs ++ ws) i ≡ refreshed (refreshed g vs) ws i
  refreshed-append g [] ws i = refl
  refreshed-append g (v ∷ vs) ws i = refreshed-append (after v g) vs ws i

  pub refreshed_same :
      (vs : List (Vehicle C)) (g g' : ℕ → Option (Document C))
      → ((i : ℕ) → g i ≡ g' i)
      → (i : ℕ) → refreshed g vs i ≡ refreshed g' vs i
  refreshed_same [] g g' e i = e i
  refreshed_same (v ∷ vs) g g' e i =
      refreshed_same vs (after v g) (after v g') (λ j. after_same v g g' j (e j)) i

  refreshed_other :
      (vs : List (Vehicle C)) (g : ℕ → Option (Document C)) (i : ℕ)
      → find vehicle_key i vs ≡ none
      → refreshed g (with_status approved vs) i ≡ g i
  unfolding find
  refreshed_other [] g i absent = refl
  refreshed_other (v ∷ vs) g i absent = elim (Bool-cases (v.id == i)) [
    | inl same ↦ cc
    | inr other ↦ elim (Bool-cases (same_approval v.approval_status approved)) [
      | inl listed ↦ rw (listed) (refreshed_other vs (after v g) i (ground arith) ∙ rw (other) refl)
      | inr hidden ↦ rw (hidden) (refreshed_other vs g i (ground arith))
    ]
  ]

  pub refreshed-shown :
      (vs : List (Vehicle C)) (g : ℕ → Option (Document C)) (i : ℕ)
      → IsUnique vs
      → g i ≡ none
      → refreshed g (with_status approved vs) i ≡ shown (find vehicle_key i vs)
  unfolding find
  refreshed-shown [] g i u empty = empty
  refreshed-shown (v ∷ vs) g i u empty = elim (Bool-cases (v.id == i)) [
    | inl same ↦
        let absent : find vehicle_key i vs ≡ none =
          subst (λ j. find vehicle_key j vs ≡ none) (==→eq v.id i same) u.0 in
        elim (Bool-cases (same_approval v.approval_status approved)) [
          | inl listed ↦
              rw (listed, same) (refreshed_other vs (after v g) i absent ∙ rw (same, listed) refl)
          | inr hidden ↦
              let left : refreshed g (with_status approved (v ∷ vs)) i ≡ none =
                rw (hidden) (refreshed_other vs g i absent ∙ empty) in
              let right : shown (find vehicle_key i (v ∷ vs)) ≡ none = rw (same, hidden) refl in
              left ∙ sym right
        ]
    | inr other ↦ elim (Bool-cases (same_approval v.approval_status approved)) [
      | inl listed ↦ rw (listed, other) (refreshed-shown vs (after v g) i u.1 (rw (other) empty))
      | inr hidden ↦ rw (hidden, other) (refreshed-shown vs g i u.1 empty)
    ]
  ]

  pub take-drop : (n : ℕ) (xs : List (Vehicle C)) → take n xs ++ drop n xs ≡ xs
  take-drop zero xs = refl
  take-drop (suc n) [] = refl
  take-drop (suc n) (x ∷ xs) = ap (λ ys. x ∷ ys) (take-drop n xs)

  drop_empty : (n : ℕ) → ◌≡◌ {A = List (Vehicle C)} (drop n []) []
  drop_empty zero = refl
  drop_empty (suc n) = refl

  pub drop-drop : (a b : ℕ) (xs : List (Vehicle C)) → drop (a + b) xs ≡ drop b (drop a xs)
  drop-drop zero b xs = let e : 0 + b ≡ b = omega arith in ap (λ n. drop n xs) e
  drop-drop (suc a) b [] = drop_empty (suc a + b) ∙ sym (drop_empty b)
  drop-drop (suc a) b (x ∷ xs) =
      let e : suc a + b ≡ suc (a + b) = omega arith in
      ap (λ n. drop n (x ∷ xs)) e ∙ drop-drop a b xs

  pub nothing_left : (xs : List (Vehicle C)) → length xs ≡ 0 → xs ≡ []
  nothing_left [] e = refl
  nothing_left (x ∷ xs) e = ground arith

  pub All-take : (n : ℕ) (xs : List (Vehicle C)) → All IsListed xs → All IsListed (take n xs)
  All-take zero xs h = tt
  All-take (suc n) [] h = tt
  All-take (suc n) (x ∷ xs) h = (h.0, All-take n xs h.1)

  pub All-drop : (n : ℕ) (xs : List (Vehicle C)) → All IsListed xs → All IsListed (drop n xs)
  All-drop zero xs h = h
  All-drop (suc n) [] h = tt
  All-drop (suc n) (x ∷ xs) h = All-drop n xs h.1
