-- ===== src/Base/Table.antt =====
-- A table whose rows are found by a numeric primary key, in the order of insertion.
use car_flow_mvp.Base.Tests.{◌==◌, if◌then◌else◌, is_some}
use Prim.Native.Nat.{ℕ}
use mathlib.Core.Path.{◌≡◌, refl}
use mathlib.Core.Option.{Option, none, some}
use mathlib.Core.List.{List, [], ◌∷◌, ◌++◌}
use native.Mathlib.Omega.{arith}

module _ {V : Type 0} (key : V → ℕ) where
  -- SELECT ... WHERE key = k
  unfoldable pub find : ℕ → List V → Option V
  find k [] = none
  find k (v ∷ vs) = if key v == k then some v else find k vs

  -- UPDATE ... WHERE key = key v
  unfoldable pub replace : V → List V → List V
  replace v [] = []
  replace v (w ∷ vs) = if key w == key v then v ∷ vs else w ∷ replace v vs

  pub find-key : (k : ℕ) (v : V) (vs : List V) → find k vs ≡ some v → key v ≡ k
  unfolding find
  find-key k v [] h = ground arith
  find-key k v (w ∷ vs) h = ground (arith, find-key k v vs)

  pub find-replace :
      (k : ℕ) (v : V) (vs : List V)
      → find k (replace v vs)
        ≡ (if (key v == k) then (if is_some (find k vs) then some v else none) else find k vs)
  unfolding find replace
  find-replace k v [] = ground arith
  find-replace k v (w ∷ vs) = ground (arith, find-replace k v vs)

  pub find-append_one :
      (k : ℕ) (v : V) (vs : List V)
      → find k (vs ++ v ∷ [])
        ≡ (if is_some (find k vs) then find k vs else (if key v == k then some v else none))
  unfolding find
  find-append_one k v [] = ground arith
  find-append_one k v (w ∷ vs) = ground (arith, find-append_one k v vs)

  -- A new row that is written again at once.
  pub replace-append_new :
      (v w : V) (vs : List V)
      → find (key v) vs ≡ none
      → key w ≡ key v
      → replace w (vs ++ v ∷ []) ≡ vs ++ w ∷ []
  unfolding find replace
  replace-append_new v w [] h e = ground arith
  replace-append_new v w (x ∷ vs) h e = ground (arith, replace-append_new v w vs)

  -- Of two writes of one row the second counts.
  pub replace-replace :
      (v w : V) (vs : List V) → key w ≡ key v → replace w (replace v vs) ≡ replace w vs
  unfolding replace
  replace-replace v w [] e = refl
  replace-replace v w (x ∷ vs) e = ground (arith, replace-replace v w vs)
