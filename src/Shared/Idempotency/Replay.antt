-- ===== src/Shared/Idempotency/Replay.antt =====
-- What a client that sends a request again gets: shared/idempotency.py from the guard to the answer.
use text.Mathlib.Text.{◌==◌ as str_eq}
use car_flow_mvp.Base.{ℕ, ◌≡◌, true, false, none, some, String, List, [], ◌∷◌, ◌++◌, arith}
use car_flow_mvp.Base.Result.{ok, err}
use car_flow_mvp.Base.Exec.{Exec, transact, ◌>>=◌}
use car_flow_mvp.Shared.Http.{Failure, Response}
use car_flow_mvp.Shared.Idempotency.{
  IdempotencyRow, KeyTable, is_key, select_key, make_guard, store, respond_idempotently, key_reused,
  key_missing,
}

-- The answer that a row holds.
abbrev pub answer_of : {B : Type 0} → IdempotencyRow B → Response B
answer_of row = record { status_code = row.status_code; content = row.response_body }

pub select_key-append :
    {B : Type 0} (c k : String) (row : IdempotencyRow B) (rows : List (IdempotencyRow B))
    → select_key c k rows ≡ none
    → is_key c k row ≡ true
    → select_key c k (rows ++ row ∷ []) ≡ some row
unfolding select_key
select_key-append c k row [] absent fits = ground arith
select_key-append c k row (r ∷ rows) absent fits = ground (arith, select_key-append c k row rows)

module _ {S B H : Type 0} (table : KeyTable S B) (hash_request_body : H → String) where
  -- A mutating endpoint: the guard first, then the answer through it, in one transaction. `build`
  -- is the endpoint's own work.
  unfoldable pub request :
      String → String → H → ℕ → ℕ → Exec S Failure B → Exec S Failure (Response B)
  request consumer_id key body status_code now build = transact (do
    guard ← λ s. (make_guard table hash_request_body (some key) consumer_id body s, s)
    respond_idempotently table guard status_code now build)

  module _ (c k : String) (body : H) where
    abbrev pub new_row : B → ℕ → ℕ → IdempotencyRow B
    new_row b status_code now = record {
      consumer_id = c;
      key = k;
      request_hash = hash_request_body body;
      response_body = b;
      status_code = status_code;
      created_at = now;
    }

    -- The row under the request's key was stored for a request with the same body.
    pub record Matches (row : IdempotencyRow B) (s : S) : Type 0 where
      pub named : str_eq k "" ≡ false
      pub found : select_key c k (table.keys s) ≡ some row
      pub same_body : str_eq row.request_hash (hash_request_body body) ≡ true

    -- Such a request gets the stored answer, changes nothing, and does none of its own work.
    pub request_replays :
        (row : IdempotencyRow B) (s : S) (status_code now : ℕ) (build : Exec S Failure B)
        → Matches row s
        → request c k body status_code now build s ≡ (ok (answer_of row), s)
    unfolding request make_guard respond_idempotently
    request_replays row s status_code now build m = rw (m.named, m.found, m.same_body)

    -- A new key lets the endpoint do its work, and stores the answer under the key.
    pub request_new :
        (s s' : S) (b : B) (status_code now : ℕ) (build : Exec S Failure B)
        → str_eq k "" ≡ false
        → select_key c k (table.keys s) ≡ none
        → build s ≡ (ok b, s')
        → select_key c k (table.keys s') ≡ none
        → request c k body status_code now build s ≡ (
          ok (record { status_code = status_code; content = b }),
          table.with_keys (table.keys s' ++ new_row b status_code now ∷ []) s',
        )
    unfolding request make_guard respond_idempotently store
    request_new s s' b status_code now build named absent built still =
        rw (named, absent, built, store, still)

    -- If that work raises, nothing is stored, and nothing else is changed.
    pub request_raises :
        (s s' : S) (e : Failure) (status_code now : ℕ) (build : Exec S Failure B)
        → str_eq k "" ≡ false
        → select_key c k (table.keys s) ≡ none
        → build s ≡ (err e, s')
        → request c k body status_code now build s ≡ (err e, s)
    unfolding request make_guard respond_idempotently
    request_raises s s' e status_code now build named absent built = rw (named, absent, built)

    -- A key that was used for another body is refused, and nothing is changed.
    pub request_refused :
        (row : IdempotencyRow B) (s : S) (status_code now : ℕ) (build : Exec S Failure B)
        → str_eq k "" ≡ false
        → select_key c k (table.keys s) ≡ some row
        → str_eq row.request_hash (hash_request_body body) ≡ false
        → request c k body status_code now build s ≡ (err key_reused, s)
    unfolding request make_guard
    request_refused row s status_code now build named found other = rw (named, found, other)

    pub request_unnamed :
        (s : S) (status_code now : ℕ) (build : Exec S Failure B)
        → str_eq k "" ≡ true
        → request c k body status_code now build s ≡ (err key_missing, s)
    unfolding request make_guard
    request_unnamed s status_code now build named = rw named
