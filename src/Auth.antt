-- ===== src/Auth.antt =====
-- services/auth/models.py, repository.py, security.py and service.py: the accounts. Argon2 and PyJWT are
-- arguments, with what their documentation says.
pub mod Routes
pub mod Sessions
use text.Mathlib.Text.{◌==◌ as str_eq}
use car_flow_mvp.Base.{
  ℕ, ◌+◌, ◌<◌, ◌≤◌, ◌≡◌, refl, Bool, true, false, not, Option, none, some, String, List, [], ◌∷◌,
  ◌++◌, is_some, if◌then◌else◌,
}
use car_flow_mvp.Base.Result.{ok, err}
use car_flow_mvp.Base.Exec.{Exec, pure, raise, raise_if, gets, catching, ◌>>=◌, ◌>>◌}
use car_flow_mvp.Base.Table.{find}
use car_flow_mvp.Shared.Auth.{Role}
use car_flow_mvp.Shared.Idempotency.{IdempotencyRow, KeyTable}
use car_flow_mvp.Shared.Tokens.{TokenType, access, refresh, TokenClaims, Jwt}

pub record User : Type 0 where
  pub id : ℕ
  pub email : String
  pub name : String
  pub password_hash : String
  pub role : Role

pub record UserResponse : Type 0 where
  pub id : ℕ
  pub email : String
  pub name : String
  pub role : Role

pub record AuthDb : Type 0 where
  pub users : List User
  pub keys : List (IdempotencyRow UserResponse)

abbrev pub key_table : KeyTable AuthDb UserResponse
key_table = record {
  keys = λ db. db.keys;
  with_keys = λ rows db. record db { keys = rows };
  keys-with_keys = λ rows db. refl;
}

pub data AuthError : Type 0 where
  duplicate_email email_already_registered invalid_credentials : AuthError

-- Argon2: `hash` takes the salt that the library draws.
pub record PasswordHasher : Type 0 where
  pub hash : ℕ → String → String
  pub verify : String → String → Bool
  pub verify-hash : (salt : ℕ) (password : String) → verify (hash salt password) password ≡ true

pub record AuthSettings : Type 0 where
  pub jwt_issuer : String
  pub access_token_ttl_seconds : ℕ
  pub refresh_token_ttl_seconds : ℕ

abbrev pub Action : Type 0 → Type 0
Action A = Exec AuthDb AuthError A

abbrev pub user_key : User → ℕ
user_key user = user.id

-- SELECT ... WHERE email = ...
unfoldable pub find_email : String → List User → Option User
find_email email [] = none
find_email email (user ∷ users) =
    if str_eq user.email email then some user else find_email email users

unfoldable pub get_by_email : String → Action (Option User)
get_by_email email = gets (λ db. find_email email db.users)

unfoldable pub get_by_id : ℕ → Action (Option User)
get_by_id user_id = gets (λ db. find user_key user_id db.users)

-- The INSERT, with the unique constraint on the email.
unfoldable pub create : (user_id : ℕ) → (email name password_hash : String) → Role → Action User
create user_id email name password_hash role db =
    let user : User = record {
      id = user_id;
      email = email;
      name = name;
      password_hash = password_hash;
      role = role;
    } in
    if is_some (find_email email db.users)
    then (err duplicate_email, db)
    else (ok user, record db { users = db.users ++ user ∷ [] })

-- `except DuplicateEmailError`
abbrev pub registered_error : AuthError → AuthError
registered_error duplicate_email = email_already_registered
registered_error e = e

module _ (hasher : PasswordHasher) where
  -- `uuid4` and the salt are arguments.
  unfoldable pub register_user :
      (user_id salt : ℕ) → (email name password : String) → Role → Action User
  register_user user_id salt email name password role = do
    existing ← get_by_email email
    raise_if (is_some existing) email_already_registered
    catching registered_error (create user_id email name (hasher.hash salt password) role)

  abbrev pub verified : String → Option User → Action User
  verified password none = raise invalid_credentials
  verified password (some user) = do
    raise_if (not (hasher.verify user.password_hash password)) invalid_credentials
    pure user

  unfoldable pub authenticate_user : (email password : String) → Action User
  authenticate_user email password = do user ← get_by_email email; verified password user

-- The payload of a token that is issued at the time `now`.
abbrev pub payload : (issuer : String) → (now user_id : ℕ) → Role → TokenType → ℕ → TokenClaims
payload issuer now user_id role token_type ttl_seconds = record {
  sub = user_id;
  role = role;
  token_type = token_type;
  iss = issuer;
  iat = now;
  exp = now + ttl_seconds;
}

module _ (jwt : Jwt) where
  abbrev pub create_token : (issuer : String) → (now user_id : ℕ) → Role → TokenType → ℕ → String
  create_token issuer now user_id role token_type ttl_seconds =
      jwt.encode (payload issuer now user_id role token_type ttl_seconds)

  abbrev pub issue_token_pair : ℕ → User → AuthSettings → String × String
  issue_token_pair now user settings = (
    create_token settings.jwt_issuer now user.id user.role access settings.access_token_ttl_seconds,
    create_token settings.jwt_issuer now user.id user.role refresh
        settings.refresh_token_ttl_seconds,
  )
