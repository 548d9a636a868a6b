-- ===== src/Shared/Endpoint/Repeated.antt =====
-- A request that is sent again to an endpoint.
use car_flow_mvp.Base.{ℕ, ◌≡◌, sym, ap, ◌∙◌, true, some, String}
use car_flow_mvp.Base.Result.{Result, ok, err}
use car_flow_mvp.Base.Exec.{Exec, catching, caught, pure, bind-ok, pure-ok, ◌>>=◌}
use car_flow_mvp.Shared.Http.{Failure, Response}
use car_flow_mvp.Shared.Auth.{Claims, same_role, require_role}
use car_flow_mvp.Shared.Idempotency.{IdempotencyRow, KeyTable, select_key}
use car_flow_mvp.Shared.Idempotency.Replay.{request}
use car_flow_mvp.Shared.Idempotency.Retry.{LeavesKeys, answered-Stored, retry_same_answer}
use car_flow_mvp.Shared.Endpoint.{Endpoint, run_endpoint, serve}

-- A `build` that turns a service's exceptions into answers ran the service's operation.
caught-ok :
    {S E E' A : Type 0} (f : E → E') (o : Result E A × S) (a : A) (s' : S)
    → caught f o ≡ (ok a, s')
    → o ≡ (ok a, s')
caught-ok {S} {E} {E'} {A} f (ok b, d) b' s' h =
    let same : b ≡ b' = cc in let left : d ≡ s' = ap (λ (o : Result E' A × S). o.1) h in cc
caught-ok f (err e, d) b' s' h = cc

pub built-ok :
    {S E E' A B : Type 0} (f : E → E') (operation : Exec S E A) (response : A → B) (s s' : S)
    (r : B)
    → (catching f operation >>= (λ a. pure (response a))) s ≡ (ok r, s')
    → (a : A) × (operation s ≡ (ok a, s'))
built-ok f operation response s s' r h =
    let (a, d, first, rest) = bind-ok (catching f operation) (λ x. pure (response x)) s s' h in
    let (_, same) = pure-ok _ d s' rest in
    (a, caught-ok f (operation s) a d first ∙ ap (λ x. (ok a, x)) (sym same))

module _ {S B : Type 0} (key_table : KeyTable S B) {H : Type 0}
    (hash_request_body : H → String) where
  pub as_request :
      (endpoint : Endpoint S B) (claims : Claims) (c k : String) (body : H) (now : ℕ) (s : S)
      → endpoint.payload_valid ≡ true
      → same_role claims.role endpoint.allowed_role ≡ true
      → serve key_table hash_request_body endpoint claims (some k) c body now s
        ≡ request key_table hash_request_body c k body endpoint.status_code now
            (endpoint.build claims)
            s
  unfolding serve run_endpoint request require_role
  as_request endpoint claims c k body now s valid role = rw (valid, role)

  -- A request whose key and body are those of an answered one gets its answer, and changes nothing.
  pub repeated_answer :
      (endpoint other : Endpoint S B) (claims : Claims) (c k : String) (body : H) (now now' : ℕ)
      (s later : S) {response : Response B}
      → endpoint.payload_valid ≡ true
      → other.payload_valid ≡ true
      → same_role claims.role endpoint.allowed_role ≡ true
      → same_role claims.role other.allowed_role ≡ true
      → LeavesKeys key_table hash_request_body (endpoint.build claims)
      → (serve key_table hash_request_body endpoint claims (some k) c body now s).0 ≡ ok response
      → select_key c k (key_table.keys later)
        ≡ select_key c k (
            key_table.keys
              (serve key_table hash_request_body endpoint claims (some k) c body now s).1)
      → serve key_table hash_request_body other claims (some k) c body now' later
        ≡ (ok response, later)
  repeated_answer endpoint other claims c k body now now' s later valid valid' role role' keep
        answered kept =
      let first = as_request endpoint claims c k body now s valid role in
      as_request other claims c k body now' later valid' role'
      ∙ retry_same_answer key_table hash_request_body c k body endpoint.status_code now
          other.status_code now' (endpoint.build claims) (other.build claims) s later keep
          (ap (λ (o : Result Failure (Response B) × S). o.0) (sym first) ∙ answered)
          (kept
            ∙ ap (λ (o : Result Failure (Response B) × S). select_key c k (key_table.keys o.1))
                first)

  -- After an answer there is a row under its key.
  pub stored_answer :
      (endpoint : Endpoint S B) (claims : Claims) (c k : String) (body : H) (now : ℕ) (s : S)
      {response : Response B}
      → endpoint.payload_valid ≡ true
      → same_role claims.role endpoint.allowed_role ≡ true
      → LeavesKeys key_table hash_request_body (endpoint.build claims)
      → (serve key_table hash_request_body endpoint claims (some k) c body now s).0 ≡ ok response
      → (row : IdempotencyRow B) × (select_key c k (
            key_table.keys
              (serve key_table hash_request_body endpoint claims (some k) c body now s).1)
          ≡ some row)
  stored_answer endpoint claims c k body now s {response} valid role keep answered =
      let first = as_request endpoint claims c k body now s valid role in
      let (row, m, _) =
        answered-Stored key_table hash_request_body c k body endpoint.status_code now
          (endpoint.build claims) keep s response
          (ap (λ (o : Result Failure (Response B) × S). o.0) (sym first) ∙ answered) in
      (
        row,
        ap (λ (o : Result Failure (Response B) × S). select_key c k (key_table.keys o.1)) first
            ∙ m.found,
      )
