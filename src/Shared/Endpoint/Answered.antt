-- ===== src/Shared/Endpoint/Answered.antt =====
-- What a request had if it was answered.
use text.Mathlib.Text.{◌==◌ as str_eq}
use car_flow_mvp.Base.{
  ℕ, ◌≡◌, refl, sym, ap, subst, ⊤, ◌∙◌, Bool, true, false, not, Option, none, some, String,
  if◌then◌else◌,
}
use car_flow_mvp.Base.Result.{Result, ok, err}
use car_flow_mvp.Base.Exec.{
  Exec, lift, raise_if, settle, settle-ok, bind-ok, raise_if-ok, ◌>>=◌, ◌>>◌,
}
use car_flow_mvp.Shared.Http.{Failure, validation_error, Response}
use car_flow_mvp.Shared.Auth.{Claims, same_role, require_role, insufficient_role}
use car_flow_mvp.Shared.Idempotency.{
  IdempotencyGuard, KeyTable, key_missing, make_guard, respond_idempotently,
}
use car_flow_mvp.Shared.Endpoint.{Endpoint, run_endpoint, serve}

-- The header Idempotency-Key was sent, and is not empty.
unfoldable pub HasKey : Option String → Type 0
HasKey key = (k : String) × (key ≡ some k) × (str_eq k "" ≡ false)

passed :
    {S : Type 0} (test : Bool) (e : Failure) (s s' : S) (x : ⊤)
    → lift (if test then ok tt else err e) s ≡ (ok x, s')
    → (test ≡ true) × (s' ≡ s)
passed true e s s' x h = (refl, cc)
passed false e s s' x h = cc

keyed :
    {A : Type 0} (empty : Bool) (e : Failure) (o : Result Failure A) (a : A)
    → (if empty then err e else o) ≡ ok a
    → empty ≡ false
keyed true e o a h = cc
keyed false e o a h = refl

negated : (test : Bool) → not test ≡ false → test ≡ true
negated true h = refl
negated false h = cc

module _ {S B : Type 0} (key_table : KeyTable S B) {H : Type 0}
    (hash_request_body : H → String) where
  guarded_by :
      (key : Option String) (c : String) (body : H) (s : S) (guard : IdempotencyGuard B)
      → make_guard key_table hash_request_body key c body s ≡ ok guard
      → HasKey key
  unfolding make_guard HasKey
  guarded_by none c body s guard h = cc
  guarded_by (some k) c body s guard h = (k, refl, keyed (str_eq k "") key_missing _ guard h)

  -- How an endpoint's body got to its answer.
  allowed :
      (endpoint : Endpoint S B) (claims : Claims) (guard : IdempotencyGuard B) (now : ℕ) (s s' : S)
      (response : Response B)
      → run_endpoint key_table endpoint claims guard now s ≡ (ok response, s')
      → (same_role claims.role endpoint.allowed_role ≡ true)
        × (respond_idempotently key_table guard endpoint.status_code now (endpoint.build claims) s
            ≡ (ok response, s'))
  unfolding run_endpoint require_role
  allowed endpoint claims guard now s s' response h =
      let respond =
        respond_idempotently key_table guard endpoint.status_code now (endpoint.build claims) in
      let (x, s1, first, rest) =
        bind-ok (lift (require_role claims endpoint.allowed_role)) (λ _. respond) s s' h in
      let (role, same) =
        passed (same_role claims.role endpoint.allowed_role) insufficient_role s s1 x first in
      (role, subst (λ t. respond t ≡ (ok response, s')) same rest)

  -- How a request got to its answer: past the guard, the validators and the check of the role.
  pub record Answered (endpoint : Endpoint S B) (claims : Claims) (key : Option String) (c : String)
      (body : H) (now : ℕ) (s s' : S) (response : Response B) : Type 0 where
    pub guard : IdempotencyGuard B
    pub guarded : make_guard key_table hash_request_body key c body s ≡ ok guard
    pub valid : endpoint.payload_valid ≡ true
    pub role : same_role claims.role endpoint.allowed_role ≡ true
    pub responded :
        respond_idempotently key_table guard endpoint.status_code now (endpoint.build claims) s
        ≡ (ok response, s')

  pub serve-Answered :
      (endpoint : Endpoint S B) (claims : Claims) (key : Option String) (c : String) (body : H)
      (now : ℕ) (s : S) {response : Response B}
      → (serve key_table hash_request_body endpoint claims key c body now s).0 ≡ ok response
      → Answered endpoint claims key c body now s
          (serve key_table hash_request_body endpoint claims key c body now s).1
          response
  unfolding serve
  serve-Answered endpoint claims key c body now s {response} h =
      let rest : IdempotencyGuard B → Exec S Failure (Response B) = λ guard.
        raise_if (not endpoint.payload_valid) validation_error
        >> run_endpoint key_table endpoint claims guard now in
      let block : Exec S Failure (Response B) =
        (λ t. (make_guard key_table hash_request_body key c body t, t)) >>= rest in
      let s' = (settle s (block s)).1 in
      let (done, same) = settle-ok s (block s) h in
      let (guard, s1, first, then_rest) =
        bind-ok (λ t. (make_guard key_table hash_request_body key c body t, t)) rest s s'
          (sym same ∙ ap (λ r. (r, s')) h) in
      let (_, s2, checked, last) =
        bind-ok (raise_if (not endpoint.payload_valid) validation_error)
          (λ _. run_endpoint key_table endpoint claims guard now) s1 s' then_rest in
      let (valid, unchanged) =
        raise_if-ok (not endpoint.payload_valid) validation_error s1 s2 checked in
      let (role, responded) = allowed endpoint claims guard now s2 s' response last in
      let from_start : s2 ≡ s =
        unchanged ∙ sym (ap (λ (o : Result Failure (IdempotencyGuard B) × S). o.1) first) in
      record {
        guard = guard;
        guarded = ap (λ (o : Result Failure (IdempotencyGuard B) × S). o.0) first;
        valid = negated endpoint.payload_valid valid;
        role = role;
        responded =
            subst
              (λ t.
                respond_idempotently key_table guard endpoint.status_code now
                  (endpoint.build claims) t
                ≡ (ok response, s'))
              from_start responded;
      }

  -- An answered request had a key.
  pub Answered-HasKey :
      (endpoint : Endpoint S B) (claims : Claims) (key : Option String) (c : String) (body : H)
      (now : ℕ) (s s' : S) (response : Response B)
      → Answered endpoint claims key c body now s s' response
      → HasKey key
  Answered-HasKey endpoint claims key c body now s s' response a =
      guarded_by key c body s a.guard a.guarded
