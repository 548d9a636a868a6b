-- ===== src/Shared/Endpoint.antt =====
-- An endpoint of a service that changes data, and a request to it: the dependencies of FastAPI's
-- handlers, and the `idempotency_guard_dependency` of shared/idempotency.py.
pub mod Repeated
pub mod Answered
pub mod Others
pub mod Kept
use car_flow_mvp.Base.{ℕ, ◌≡◌, Bool, true, false, ◌&&◌, not, Option, some, String, leb}
use Prim.Native.String.{count}
use car_flow_mvp.Base.Result.{ok, err}
use car_flow_mvp.Base.Exec.{Exec, lift, raise_if, transact, ◌>>=◌, ◌>>◌}
use car_flow_mvp.Shared.Http.{Failure, validation_error, Response}
use car_flow_mvp.Shared.Auth.{Role, Claims, same_role, insufficient_role, require_role}
use car_flow_mvp.Shared.Idempotency.{IdempotencyGuard, KeyTable, make_guard, respond_idempotently}

-- What an endpoint does, which role it needs, its status code, and whether the request's payload
-- passes the validators of its schema.
pub record Endpoint (S B : Type 0) : Type 0 where
  pub allowed_role : Role
  pub status_code : ℕ
  pub payload_valid : Bool
  pub build : Claims → Exec S Failure B

-- `Field(min_length=1, max_length=...)`, which counts characters.
abbrev pub text_fits : ℕ → String → Bool
text_fits max_length s = leb 1 (count s) && leb (count s) max_length

module _ {S B : Type 0} (key_table : KeyTable S B) where
  -- The body of such an endpoint, after its dependencies are resolved.
  unfoldable pub run_endpoint :
      Endpoint S B → Claims → IdempotencyGuard B → ℕ → Exec S Failure (Response B)
  run_endpoint endpoint claims guard now = do
    lift (require_role claims endpoint.allowed_role)
    respond_idempotently key_table guard endpoint.status_code now (endpoint.build claims)

  -- A request to it, in one transaction: the guard of `get_guard`, the payload, then the body.
  module _ {H : Type 0} (hash_request_body : H → String) where
    unfoldable pub serve :
        Endpoint S B → Claims → Option String → String → H → ℕ → Exec S Failure (Response B)
    serve endpoint claims key consumer_id body now = transact (do
      guard ← λ s. (make_guard key_table hash_request_body key consumer_id body s, s)
      raise_if (not endpoint.payload_valid) validation_error
      run_endpoint endpoint claims guard now)
