-- ===== src/Shared/Tokens.antt =====
-- Tokens, and the dependency of shared/jwt_auth.py that reads a request's. PyJWT is an argument, with the
-- secret and the algorithm: `decode` takes the issuer that is asked for and the time, and has nothing where
-- it raises InvalidTokenError.
use car_flow_mvp.Base.{
  ℕ, ◌≤◌, ◌<◌, ◌≡◌, Bool, true, false, not, Option, none, some, String, if◌then◌else◌,
}
use car_flow_mvp.Base.Result.{Result, ok, err}
use car_flow_mvp.Shared.Http.{Failure, http_exception}
use car_flow_mvp.Shared.Auth.{Role, Claims}

pub data TokenType : Type 0 where
  access refresh : TokenType

pub record TokenClaims : Type 0 where
  pub sub : ℕ
  pub role : Role
  pub token_type : TokenType
  pub iss : String
  pub iat : ℕ
  pub exp : ℕ

-- A token is read back by its issuer's name, from the time it was issued until it expires.
pub record Jwt : Type 0 where
  pub encode : TokenClaims → String
  pub decode : (issuer : String) → (now : ℕ) → String → Option TokenClaims
  pub decode-encode :
      (now : ℕ) (claims : TokenClaims)
      → claims.iat ≤ now
      → now < claims.exp
      → decode claims.iss now (encode claims) ≡ some claims

abbrev pub same_type : TokenType → TokenType → Bool
same_type access access = true
same_type refresh refresh = true
same_type access refresh = false
same_type refresh access = false

abbrev pub expected : TokenType → Failure
expected access = http_exception 401 "expected a access token"
expected refresh = http_exception 401 "expected a refresh token"

abbrev pub typed_claims : TokenType → Option TokenClaims → Result Failure Claims
typed_claims token_type none = err (http_exception 401 "invalid or expired token")
typed_claims token_type (some claims) =
    if not (same_type claims.token_type token_type)
    then err (expected token_type)
    else ok (record { sub = claims.sub; role = claims.role })

-- `claims_dependency`, on the token of the Authorization header, if it has one after "Bearer ".
unfoldable pub claims_dependency :
    Jwt → (issuer : String) → TokenType → (now : ℕ) → Option String → Result Failure Claims
claims_dependency jwt issuer token_type now none = err (http_exception 401 "missing bearer token")
claims_dependency jwt issuer token_type now (some token) =
    typed_claims token_type (jwt.decode issuer now token)
