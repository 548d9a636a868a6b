-- ===== src/Shared/Auth.antt =====
-- shared/jwt_auth.py: the claims of an access token and the check of the role. Decoding a token is
-- PyJWT's; a request stands here with what its decoding gave.
use car_flow_mvp.Base.{ℕ, Bool, ◌==◌, ⊤, if◌then◌else◌}
use car_flow_mvp.Base.Result.{Result, ok, err}
use car_flow_mvp.Shared.Http.{Failure, http_exception}

-- The roles of the table `roles`, and a claim that is missing.
pub data Role : Type 0 where
  renter host admin no_role : Role

abbrev pub role_code : Role → ℕ
role_code renter = 0
role_code host = 1
role_code admin = 2
role_code no_role = 3

abbrev pub same_role : Role → Role → Bool
same_role a b = role_code a == role_code b

pub record Claims : Type 0 where
  pub sub : ℕ
  pub role : Role

abbrev pub insufficient_role : Failure
insufficient_role = http_exception 403 "insufficient role"

-- `require_role`, with one allowed role, as everywhere.
unfoldable pub require_role : Claims → Role → Result Failure ⊤
require_role claims allowed = if same_role claims.role allowed then ok tt else err insufficient_role
