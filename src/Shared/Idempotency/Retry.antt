-- ===== src/Shared/Idempotency/Retry.antt =====
-- A request that is sent again, later or at the same time: shared/idempotency.py.
use text.Mathlib.Text.{◌==◌ as str_eq}
use text.Mathlib.TextPositions.{eq_refl}
use car_flow_mvp.Base.{
  ℕ, ◌≡◌, refl, sym, ap, subst, ◌∙◌, false, none, String, Option-cases, Bool-cases, inl, inr,
}
use car_flow_mvp.Base.Result.{Result, ok, err}
use car_flow_mvp.Base.Exec.{Exec}
use car_flow_mvp.Shared.Http.{Failure, Response}
use car_flow_mvp.Shared.Idempotency.{IdempotencyRow, KeyTable, select_key}
use car_flow_mvp.Shared.Idempotency.Replay.{
  answer_of, select_key-append, request, Matches, new_row, request_replays, request_new,
  request_raises, request_refused, request_unnamed,
}

module _ {S B H : Type 0} (table : KeyTable S B) (hash_request_body : H → String) where
  -- The work of an endpoint, where it returns, does not touch the table of keys.
  abbrev pub LeavesKeys : Exec S Failure B → Type 0
  LeavesKeys build = (s s' : S) (b : B) → build s ≡ (ok b, s') → table.keys s' ≡ table.keys s

  module _ (c k : String) (body : H) (status_code now : ℕ) (build : Exec S Failure B) where
    abbrev pub answers : S → Result Failure (Response B) × S
    answers = request table hash_request_body c k body status_code now build

    -- After an answer, the row that holds it stands under the key.
    abbrev pub Stored : S → Response B → Type 0
    Stored s response =
        (row : IdempotencyRow B) × Matches table hash_request_body c k body row (answers s).1
        × (answer_of row ≡ response)

    new-Stored :
        LeavesKeys build
        → (s : S) (response : Response B) → str_eq k "" ≡ false
        → select_key c k (table.keys s) ≡ none
        → (out : Result Failure B × S) → build s ≡ out
        → (answers s).0 ≡ ok response
        → Stored s response
    new-Stored keep s response named absent (ok b, s') built h =
        let same = keep s s' b built in
        let still = ap (select_key c k) same ∙ absent in
        let row = new_row table hash_request_body c k body b status_code now in
        let done =
          request_new table hash_request_body c k body s s' b status_code now build named absent
            built still in
        let rows = ap (λ (o : Result Failure (Response B) × S). table.keys o.1) done in
        (
          row,
          record {
            named = named;
            found =
                ap (select_key c k) (rows ∙ table.keys-with_keys _ s')
                ∙ select_key-append c k row (table.keys s') still (rw (eq_refl c, eq_refl k));
            same_body = eq_refl (hash_request_body body);
          },
          cc done,
        )
    new-Stored keep s response named absent (err e, s') built h = cc (
        request_raises table hash_request_body c k body s s' e status_code now build named absent
          built)

    old-Stored :
        (s : S) (response : Response B) (row : IdempotencyRow B)
        → Matches table hash_request_body c k body row s
        → (answers s).0 ≡ ok response
        → Stored s response
    old-Stored s response row m h =
        let done = request_replays table hash_request_body c k body row s status_code now build m in
        (
          row,
          subst (Matches table hash_request_body c k body row)
              (sym (ap (λ (o : Result Failure (Response B) × S). o.1) done)) m,
          cc done,
        )

    pub answered-Stored :
        LeavesKeys build
        → (s : S) (response : Response B) → (answers s).0 ≡ ok response
        → Stored s response
    answered-Stored keep s response h = elim (Bool-cases (str_eq k "")) [
      | inl empty ↦
          cc (request_unnamed table hash_request_body c k body s status_code now build empty)
      | inr named ↦ elim (Option-cases (select_key c k (table.keys s))) [
        | inl absent ↦ new-Stored keep s response named absent (build s) refl h
        | inr (row, found) ↦ elim (Bool-cases (str_eq row.request_hash (hash_request_body body))) [
          | inl same ↦
              old-Stored s response row (record { named = named; found = found; same_body = same })
                h
          | inr other ↦ cc (
              request_refused table hash_request_body c k body row s status_code now build named
                found other)
        ]
      ]
    ]

  -- A retry with the key and the body of an answered request gets the answer of the first, word for
  -- word, and changes nothing, whatever its own work would be: in every later state in which the
  -- key's row is still the one of the first request.
  pub retry_same_answer :
      (c k : String) (body : H) (status_code now status_code' now' : ℕ)
      (build build' : Exec S Failure B) (s later : S) {response : Response B}
      → LeavesKeys build
      → (request table hash_request_body c k body status_code now build s).0 ≡ ok response
      → select_key c k (table.keys later)
        ≡ select_key c k
            (table.keys (request table hash_request_body c k body status_code now build s).1)
      → request table hash_request_body c k body status_code' now' build' later
        ≡ (ok response, later)
  retry_same_answer c k body st now st' now' build build' s later {response} keep h kept =
      let (row, m, e) = answered-Stored c k body st now build keep s response h in
      request_replays table hash_request_body c k body row later st' now' build'
        (record { named = m.named; found = kept ∙ m.found; same_body = m.same_body })
      ∙ ap (λ (r : Response B). (ok r, later)) e
