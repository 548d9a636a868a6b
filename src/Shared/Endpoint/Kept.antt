-- ===== src/Shared/Endpoint/Kept.antt =====
-- What a request keeps, whatever it asks for and however it ends: shared/idempotency.py.
use car_flow_mvp.Base.{ℕ, ◌≡◌, refl, sym, ap, subst, true, Option, none, some, String}
use car_flow_mvp.Base.Result.{Result, ok, err}
use car_flow_mvp.Base.Exec.{Exec, settle-err, bind-ok, pure, pure-ok, ◌>>=◌}
use car_flow_mvp.Shared.Http.{Failure, Response}
use car_flow_mvp.Shared.Auth.{Claims, same_role}
use car_flow_mvp.Shared.Idempotency.{
  IdempotencyGuard, KeyTable, store, answer, respond_idempotently,
}
use car_flow_mvp.Shared.Endpoint.{Endpoint, serve}
use car_flow_mvp.Shared.Endpoint.Answered.{serve-Answered}

-- Something that holds of a state, and still holds once an answer is stored.
module _ {S B : Type 0} (key_table : KeyTable S B) (Holds : S → Type 0)
    (store-Holds : (guard : IdempotencyGuard B) (b : B) (status_code now : ℕ) (s : S)
      → Holds s
      → Holds (store key_table guard b status_code now s).1) where
  respond-Holds :
      (consumer_id key request_hash : String) (replay : Option (B × ℕ)) (status_code now : ℕ)
      (build : Exec S Failure B) (s s' : S) (response : Response B)
      → ((b : B) (s1 : S) → build s ≡ (ok b, s1) → Holds s1)
      → Holds s
      → respond_idempotently key_table
          (record {
            consumer_id = consumer_id;
            key = key;
            request_hash = request_hash;
            replay = replay;
          })
          status_code
          now
          build
          s
        ≡ (ok response, s')
      → Holds s'
  unfolding respond_idempotently
  respond-Holds c k hash (some (body, status)) status_code now build s s' response keep has h =
      subst Holds (sym (pure-ok _ s s' h).1) has
  respond-Holds c k hash none status_code now build s s' response keep has h =
      let guard : IdempotencyGuard B = record {
        consumer_id = c;
        key = k;
        request_hash = hash;
        replay = none;
      } in
      let (b, s1, built, rest) =
        bind-ok build
          (λ b. store key_table guard b status_code now >>= λ stored.
            pure (answer key_table stored b status_code))
          s s' h in
      let (stored, s2, first, last) =
        bind-ok (store key_table guard b status_code now)
          (λ stored. pure (answer key_table stored b status_code)) s1 s' rest in
      subst Holds (sym (pure-ok _ s2 s' last).1) (
        subst Holds (ap (λ (o : Result Failure (IdempotencyGuard B) × S). o.1) first)
          (store-Holds guard b status_code now s1 (keep b s1 built)))

  module _ {H : Type 0} (hash_request_body : H → String) (endpoint : Endpoint S B) (claims : Claims)
      (key : Option String) (c : String) (body : H) (now : ℕ) (s : S)
      (build-Holds : (b : B) (s1 : S)
        → same_role claims.role endpoint.allowed_role ≡ true
        → endpoint.build claims s ≡ (ok b, s1)
        → Holds s1)
      (has : Holds s) where
    by_outcome :
        (o : Result Failure (Response B))
        → (serve key_table hash_request_body endpoint claims key c body now s).0 ≡ o
        → Holds (serve key_table hash_request_body endpoint claims key c body now s).1
    unfolding serve
    by_outcome (ok response) h =
        let a = serve-Answered key_table hash_request_body endpoint claims key c body now s h in
        respond-Holds a.guard.consumer_id a.guard.key a.guard.request_hash a.guard.replay
          endpoint.status_code now (endpoint.build claims) s _ response
          (λ b s1. build-Holds b s1 a.role) has a.responded
    by_outcome (err e) h = subst Holds (sym (settle-err s _ h)) has

    pub serve-Holds : Holds (serve key_table hash_request_body endpoint claims key c body now s).1
    serve-Holds = by_outcome _ refl
