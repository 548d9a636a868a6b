-- ===== src/Shared/Http.antt =====
-- What an HTTP handler of FastAPI raises and returns, as far as the services use it.
use car_flow_mvp.Base.{ℕ, String}

-- `HTTPException(status_code, detail)`, or any other exception, which the framework answers by 500.
pub data Failure : Type 0 where
  http_exception : ℕ → String → Failure
  server_error : Failure
  -- The answer 422 to a request whose payload a schema refuses.
  validation_error : Failure

pub record Response (B : Type 0) : Type 0 where
  pub status_code : ℕ
  pub content : B
