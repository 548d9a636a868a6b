-- ===== src/Auth/Routes.antt =====
-- services/auth/routes.py and services/auth/schemas.py: registration, login, refresh and the caller's
-- account.
use Prim.Native.String.{count}
use car_flow_mvp.Base.{ℕ, Bool, true, false, ◌&&◌, not, Option, none, some, String, leb}
use car_flow_mvp.Base.Result.{Result, ok, err}
use car_flow_mvp.Base.Exec.{Exec, pure, raise, raise_if, lift, catching, transact, ◌>>=◌, ◌>>◌}
use car_flow_mvp.Shared.Http.{Failure, http_exception, server_error, validation_error, Response}
use car_flow_mvp.Shared.Auth.{Role, renter, host, Claims}
use car_flow_mvp.Shared.Tokens.{TokenClaims, Jwt, refresh, same_type}
use car_flow_mvp.Shared.Idempotency.{make_guard, respond_idempotently}
use car_flow_mvp.Shared.Endpoint.{text_fits}
use car_flow_mvp.Auth.{
  User, UserResponse, AuthDb, key_table, AuthError, email_already_registered, invalid_credentials,
  PasswordHasher, AuthSettings, get_by_id, register_user, authenticate_user, issue_token_pair,
}

-- `TokenResponse`; its `token_type` is always "bearer".
pub record TokenResponse : Type 0 where
  pub access_token : String
  pub refresh_token : String

pub record RegisterRequest : Type 0 where
  pub email : String
  pub name : String
  pub password : String
  pub role : Role

abbrev pub user_response : User → UserResponse
user_response user = record { id = user.id; email = user.email; name = user.name; role = user.role }

abbrev pub is_open : Role → Bool
is_open renter = true
is_open host = true
is_open _ = false

-- The fields of `RegisterRequest`; what an address is, `EmailStr` says.
abbrev pub register_valid : (String → Bool) → RegisterRequest → Bool
register_valid is_email payload =
    is_email payload.email
    && text_fits 120 payload.name
    && leb 8 (count payload.password)
    && is_open payload.role

-- `except EmailAlreadyRegisteredError`; the rollback comes before a raise.
abbrev pub register_failure : AuthError → Failure
register_failure email_already_registered = http_exception 409 "email already registered"
register_failure _ = server_error

abbrev pub login_failure : AuthError → Failure
login_failure invalid_credentials = http_exception 401 "invalid email or password"
login_failure _ = server_error

abbrev pub user_gone : Failure
user_gone = http_exception 401 "user no longer exists"

-- `if user is None: raise`
abbrev pub existing : Option User → Exec AuthDb Failure User
existing none = raise user_gone
existing (some user) = pure user

abbrev pub load_user : ℕ → Exec AuthDb Failure User
load_user user_id = do user ← catching (λ e. server_error) (get_by_id user_id); existing user

module _ (hasher : PasswordHasher) (jwt : Jwt) (settings : AuthSettings) where
  -- The guard has no caller to resolve: its consumer is "".
  module _ {H : Type 0} (hash_request_body : H → String) (is_email : String → Bool) where
    unfoldable pub register :
        (user_id salt : ℕ)
        → RegisterRequest
        → Option String
        → H
        → ℕ
        → Exec AuthDb Failure (Response UserResponse)
    register user_id salt payload key body now = transact (do
      guard ← λ db. (make_guard key_table hash_request_body key "" body db, db)
      raise_if (not (register_valid is_email payload)) validation_error
      respond_idempotently key_table guard 201 now (do
        user ← catching register_failure (
            register_user hasher user_id salt payload.email payload.name payload.password
              payload.role)
        pure (user_response user)))

  abbrev pub token_response : ℕ → User → TokenResponse
  token_response now user = record {
    access_token = (issue_token_pair jwt now user settings).0;
    refresh_token = (issue_token_pair jwt now user settings).1;
  }

  unfoldable pub login : ℕ → (email password : String) → Exec AuthDb Failure TokenResponse
  login now email password = do
    user ← catching login_failure (authenticate_user hasher email password)
    pure (token_response now user)

  abbrev pub refresh_claims : Option TokenClaims → Result Failure ℕ
  refresh_claims none = err (http_exception 401 "invalid refresh token")
  refresh_claims (some claims) = elim (same_type claims.token_type refresh) [
    | true ↦ ok claims.sub
    | false ↦ err (http_exception 401 "not a refresh token")
  ]

  unfoldable pub refresh_tokens : ℕ → String → Exec AuthDb Failure TokenResponse
  refresh_tokens now token = do
    user_id ← lift (refresh_claims (jwt.decode settings.jwt_issuer now token))
    user ← load_user user_id
    pure (token_response now user)

unfoldable pub me : Claims → Exec AuthDb Failure UserResponse
me claims = do user ← load_user claims.sub; pure (user_response user)
