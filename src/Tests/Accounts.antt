-- ===== src/Tests/Accounts.antt =====
-- A concrete token format and password hasher, and a user who registers and logs in. A token is the
-- numbers of its claims in unary.
use Prim.Native.Char.{Char, code}
use Prim.Native.String.{[] as empty_text, ◌∷◌ as cons_text}
use text.Mathlib.Text.{◌==◌ as str_eq}
use text.Mathlib.TextPositions.{eq_refl}
use car_flow_mvp.Base.{
  ℕ, zero, suc, ◌≤◌, ◌<◌, ◌&&◌, leb, ◌≡◌, refl, true, Option, none, some, String, [], ◌∷◌, ◌==◌,
  ltb, if◌then◌else◌, arith,
}
use car_flow_mvp.Base.Result.{ok, err}
use car_flow_mvp.Base.Table.{find}
use car_flow_mvp.Shared.Http.{http_exception}
use car_flow_mvp.Shared.Auth.{Role, renter, host, admin, no_role, role_code}
use car_flow_mvp.Shared.Tokens.{TokenType, access, refresh, TokenClaims, Jwt, claims_dependency}
use car_flow_mvp.Auth.{
  User, AuthDb, PasswordHasher, AuthSettings, user_key, find_email, get_by_email, create,
  register_user,
}
use car_flow_mvp.Auth.Routes.{
  TokenResponse, token_response, user_response, login, refresh_tokens, me,
}
use car_flow_mvp.Auth.Sessions.{account_works, tokens_not_interchangeable}

abbrev one : Char
one = "1"

abbrev stop : Char
stop = "."

abbrev write : ℕ → String → String
write zero rest = cons_text stop rest
write (suc n) rest = cons_text one (write n rest)

abbrev counted : Option (ℕ × String) → Option (ℕ × String)
counted none = none
counted (some (n, rest)) = some (suc n, rest)

abbrev read : String → Option (ℕ × String)
read empty_text = none
read (cons_text c s) = let rest = read s in if code c == 49 then counted rest else some (0, s)

read-write : (n : ℕ) (rest : String) → read (write n rest) ≡ some (n, rest)
read-write zero rest = refl
read-write (suc n) rest = rw (read-write n rest) refl

abbrev type_code : TokenType → ℕ
type_code access = 0
type_code refresh = 1

abbrev type_of : ℕ → TokenType
type_of zero = access
type_of (suc n) = refresh

abbrev role_of : ℕ → Role
role_of zero = renter
role_of (suc zero) = host
role_of (suc (suc zero)) = admin
role_of (suc (suc (suc n))) = no_role

type_of-type_code : (t : TokenType) → type_of (type_code t) ≡ t
type_of-type_code access = refl
type_of-type_code refresh = refl

role_of-role_code : (r : Role) → role_of (role_code r) ≡ r
role_of-role_code renter = refl
role_of-role_code host = refl
role_of-role_code admin = refl
role_of-role_code no_role = refl

abbrev encoded : TokenClaims → String
encoded c =
    write c.sub
      (write (role_code c.role) (write (type_code c.token_type) (write c.iat (write c.exp c.iss))))

abbrev and_then : {A : Type 0} → Option (ℕ × String) → (ℕ → String → Option A) → Option A
and_then none f = none
and_then (some (n, rest)) f = f n rest

abbrev decoded : String → ℕ → String → Option TokenClaims
decoded issuer now token = and_then (read token) (λ sub a. and_then (read a) (λ role b.
    and_then (read b) (λ kind c. and_then (read c) (λ iat d. and_then (read d) (λ exp iss.
      if str_eq iss issuer && (leb iat now && ltb now exp)
      then some (record {
        sub = sub;
        role = role_of role;
        token_type = type_of kind;
        iss = iss;
        iat = iat;
        exp = exp;
      })
      else none)))))

decoded-encoded :
    (now : ℕ) (c : TokenClaims) → c.iat ≤ now → now < c.exp → decoded c.iss now (encoded c) ≡ some c
decoded-encoded now c issued fresh =
    let still : ltb now c.exp ≡ true = ground arith in
    let begun : leb c.iat now ≡ true = ground arith in
    rw
      (
        read-write c.sub _,
        read-write (role_code c.role) _,
        read-write (type_code c.token_type) _,
        read-write c.iat _,
        read-write c.exp c.iss,
        eq_refl c.iss,
        begun,
        still,
        role_of-role_code c.role,
        type_of-type_code c.token_type,
      )
      refl

abbrev unary_tokens : Jwt
unary_tokens = record { encode = encoded; decode = decoded; decode-encode = decoded-encoded }

abbrev plain_hasher : PasswordHasher
plain_hasher = record {
  hash = λ salt password. password;
  verify = λ hash password. str_eq hash password;
  verify-hash = λ salt password. eq_refl password;
}

abbrev settings : AuthSettings
settings = record {
  jwt_issuer = "carflow-auth";
  access_token_ttl_seconds = 9;
  refresh_token_ttl_seconds = 60;
}

abbrev nobody : AuthDb
nobody = record { users = []; keys = [] }

abbrev ann : User
ann = record {
  id = 2;
  email = "ann@example.org";
  name = "Ann";
  password_hash = "long enough";
  role = renter;
}

abbrev with_ann : AuthDb
with_ann = record nobody { users = ann ∷ [] }

registers :
    register_user plain_hasher 2 77 "ann@example.org" "Ann" "long enough" renter nobody
    ≡ (ok ann, with_ann)
unfolding register_user get_by_email find_email create
registers = refl

nobody_yet : find user_key 2 nobody.users ≡ none
unfolding find
nobody_yet = refl

abbrev pair : TokenResponse
pair = token_response plain_hasher unary_tokens settings 100 ann

account_works_example :
    (login plain_hasher unary_tokens settings 100 "ann@example.org" "long enough" with_ann
      ≡ (ok pair, with_ann))
    × (claims_dependency unary_tokens "carflow-auth" access 105 (some pair.access_token)
        ≡ ok (record { sub = 2; role = renter }))
    × (me (record { sub = 2; role = renter }) with_ann ≡ (ok (user_response ann), with_ann))
    × (refresh_tokens plain_hasher unary_tokens settings 150 pair.refresh_token with_ann
        ≡ (ok (token_response plain_hasher unary_tokens settings 150 ann), with_ann))
account_works_example =
    account_works plain_hasher unary_tokens settings 2 77 100 105 150 "ann@example.org" "Ann"
      "long enough" renter nobody with_ann ann nobody_yet registers (omega arith) (omega arith)
      (omega arith) (omega arith)

tokens_not_interchangeable_example :
    (refresh_tokens plain_hasher unary_tokens settings 105 pair.access_token with_ann
      ≡ (err (http_exception 401 "not a refresh token"), with_ann))
    × (claims_dependency unary_tokens "carflow-auth" access 105 (some pair.refresh_token)
        ≡ err (http_exception 401 "expected a access token"))
tokens_not_interchangeable_example =
    tokens_not_interchangeable plain_hasher unary_tokens settings 100 105 ann with_ann (omega arith)
      (omega arith) (omega arith)
