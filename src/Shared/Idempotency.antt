-- ===== src/Shared/Idempotency.antt =====
-- shared/idempotency.py: the table `idempotency_keys`, the guard that a request gets, and the
-- answer through it. `B` is the type of response bodies, `H` of request bodies.
pub mod Replay
pub mod Retry
use text.Mathlib.Text.{◌==◌ as str_eq}
use car_flow_mvp.Base.{
  ℕ, ◌-◌, ◌≡◌, Bool, true, false, ◌&&◌, Option, none, some, String, List, [], ◌∷◌, ◌++◌, ltb,
  if◌then◌else◌,
}
use car_flow_mvp.Base.Result.{Result, ok, err}
use car_flow_mvp.Base.Exec.{Exec, pure, raise, ◌>>=◌}
use car_flow_mvp.Shared.Http.{Failure, http_exception, Response}

pub record IdempotencyRow (B : Type 0) : Type 0 where
  pub consumer_id : String
  pub key : String
  pub request_hash : String
  pub response_body : B
  pub status_code : ℕ
  pub created_at : ℕ

-- `replay_body` and `replay_status`, which are set together.
pub record IdempotencyGuard (B : Type 0) : Type 0 where
  pub consumer_id : String
  pub key : String
  pub request_hash : String
  pub replay : Option (B × ℕ)

-- The table `idempotency_keys` of a service's database.
pub record KeyTable (S B : Type 0) : Type 0 where
  pub keys : S → List (IdempotencyRow B)
  pub with_keys : List (IdempotencyRow B) → S → S
  pub keys-with_keys : (rows : List (IdempotencyRow B)) (s : S) → keys (with_keys rows s) ≡ rows

abbrev pub key_reused : Failure
key_reused = http_exception 409 "Idempotency-Key was already used with a different request"

abbrev pub key_missing : Failure
key_missing = http_exception 400 "Idempotency-Key header is required"

module _ {B : Type 0} where
  abbrev pub is_key : String → String → IdempotencyRow B → Bool
  is_key consumer_id key row = str_eq row.consumer_id consumer_id && str_eq row.key key

  -- SELECT ... WHERE consumer_id = ... AND key = ...
  unfoldable pub select_key : String → String → List (IdempotencyRow B) → Option (IdempotencyRow B)
  select_key consumer_id key [] = none
  select_key consumer_id key (row ∷ rows) =
      if is_key consumer_id key row then some row else select_key consumer_id key rows

  -- A row that is there is replayed to the request that it was stored for, and to no other.
  abbrev pub replayed : IdempotencyGuard B → IdempotencyRow B → Result Failure (IdempotencyGuard B)
  replayed guard row =
      if str_eq row.request_hash guard.request_hash
      then ok (record guard { replay = some (row.response_body, row.status_code) })
      else err key_reused

  abbrev pub fresh_guard : String → String → String → IdempotencyGuard B
  fresh_guard consumer_id key request_hash = record {
    consumer_id = consumer_id;
    key = key;
    request_hash = request_hash;
    replay = none;
  }

  -- DELETE ... WHERE created_at < cutoff
  unfoldable pub purge_rows : ℕ → List (IdempotencyRow B) → List (IdempotencyRow B)
  purge_rows cutoff [] = []
  purge_rows cutoff (row ∷ rows) =
      if ltb row.created_at cutoff then purge_rows cutoff rows else row ∷ purge_rows cutoff rows

module _ {S B : Type 0} (table : KeyTable S B) {H : Type 0} (hash_request_body : H → String) where
  -- `_guard`, on the header, the caller and the request's body.
  unfoldable pub make_guard : Option String → String → H → S → Result Failure (IdempotencyGuard B)
  make_guard none consumer_id body s = err key_missing
  make_guard (some key) consumer_id body s =
      if str_eq key "" then err key_missing else elim (select_key consumer_id key (table.keys s)) [
        | none ↦ ok (fresh_guard consumer_id key (hash_request_body body))
        | some row ↦ replayed (fresh_guard consumer_id key (hash_request_body body)) row
      ]

module _ {S B : Type 0} (table : KeyTable S B) where
  -- INSERT ... ON CONFLICT DO NOTHING, and on a conflict the row that is there.
  unfoldable pub store : IdempotencyGuard B → B → ℕ → ℕ → Exec S Failure (IdempotencyGuard B)
  store guard response_body status_code now s =
      elim (select_key guard.consumer_id guard.key (table.keys s)) [
        | none ↦ (
          ok guard,
          table.with_keys
              (table.keys s
                ++ record {
                  consumer_id = guard.consumer_id;
                  key = guard.key;
                  request_hash = guard.request_hash;
                  response_body = response_body;
                  status_code = status_code;
                  created_at = now;
                }
                  ∷ [])
              s,
        )
        | some row ↦ (replayed guard row, s)
      ]

  abbrev pub answer : IdempotencyGuard B → B → ℕ → Response B
  answer guard response_json status_code = elim guard.replay [
    | some (body, status) ↦ record { status_code = status; content = body }
    | none ↦ record { status_code = status_code; content = response_json }
  ]

  -- The commit at the end of `store` is the end of the handler's transaction.
  unfoldable pub respond_idempotently :
      IdempotencyGuard B → ℕ → ℕ → Exec S Failure B → Exec S Failure (Response B)
  respond_idempotently guard status_code now build = elim guard.replay [
    | some (body, status) ↦ pure (record { status_code = status; content = body })
    | none ↦ do
      response_json ← build
      stored ← store guard response_json status_code now
      pure (answer stored response_json status_code)
  ]

  unfoldable pub purge_expired_idempotency_keys : ℕ → ℕ → S → S
  purge_expired_idempotency_keys now older_than s =
      table.with_keys (purge_rows (now - older_than) (table.keys s)) s
