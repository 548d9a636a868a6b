-- ===== src/Search/Stores.antt =====
-- Elasticsearch and Redis, as far as services/search uses them: their states, their calls, and what
-- their documentation says of a call that went through.
use car_flow_mvp.Base.{ℕ, ◌≡◌, Bool, true, Option, none, some, ◌==◌, if◌then◌else◌}
use car_flow_mvp.Search.Documents.{Document}

-- The answer to a call of `delete`; `NotFoundError` is one of them.
pub data Deletion (S : Type 0) : Type 0 where
  deleted : S → Deletion S
  not_found unavailable : Deletion S

-- An index of documents by id: `get` reads it, and a call of `index` may fail.
pub record Elastic (S C : Type 0) : Type 0 where
  pub get : S → ℕ → Option (Document C)
  pub index : ℕ → Document C → S → Option S
  pub delete : ℕ → S → Deletion S
  pub get-index :
      (k : ℕ) (d : Document C) (s s' : S)
      → index k d s ≡ some s'
      → (i : ℕ) → get s' i ≡ (if k == i then some d else get s i)
  pub get-delete :
      (k : ℕ) (s s' : S)
      → delete k s ≡ deleted s'
      → (i : ℕ) → get s' i ≡ (if k == i then none else get s i)
  pub get-not_found : (k : ℕ) (s : S) → delete k s ≡ not_found → get s k ≡ none

-- The keys `processed-event:...`, and `SET ... NX`, which says whether the key was set by it.
pub record Redis (R : Type 0) : Type 0 where
  pub is_set : R → ℕ → Bool
  pub set_nx : ℕ → R → R
  pub is_set-set_nx :
      (k : ℕ) (r : R) (i : ℕ) → is_set (set_nx k r) i ≡ (if k == i then true else is_set r i)
