-- ===== src/Shared/Endpoint/Others.antt =====
-- What other requests leave of a stored answer: shared/idempotency.py.
use car_flow_mvp.Base.{
  ℕ, ◌≡◌, refl, ap, ◌∙◌, Option, none, some, String, List, [], ◌∷◌, ◌++◌, arith,
}
use car_flow_mvp.Shared.Auth.{Claims}
use car_flow_mvp.Shared.Idempotency.{IdempotencyRow, IdempotencyGuard, KeyTable, select_key, store}
use car_flow_mvp.Shared.Idempotency.Retry.{LeavesKeys}
use car_flow_mvp.Shared.Endpoint.Kept.{serve-Holds}
use car_flow_mvp.Shared.Endpoint.{Endpoint, serve}

select_key-kept :
    {B : Type 0} (c k : String) (row : IdempotencyRow B) (rows more : List (IdempotencyRow B))
    → select_key c k rows ≡ some row
    → select_key c k (rows ++ more) ≡ some row
unfolding select_key
select_key-kept c k row [] more found = cc
select_key-kept c k row (r ∷ rows) more found = ground (arith, select_key-kept c k row rows more)

module _ {S B : Type 0} {H : Type 0} (key_table : KeyTable S B) (hash_request_body : H → String)
    (c k : String) (row : IdempotencyRow B) where
  -- The row stands under its key.
  abbrev pub HasRow : S → Type 0
  HasRow s = select_key c k (key_table.keys s) ≡ some row

  stored-HasRow :
      (guard : IdempotencyGuard B) (b : B) (status_code now : ℕ) (s : S)
      (o : Option (IdempotencyRow B))
      → select_key guard.consumer_id guard.key (key_table.keys s) ≡ o
      → HasRow s
      → HasRow (store key_table guard b status_code now s).1
  unfolding store
  stored-HasRow guard b status_code now s none absent has =
      rw (store, absent, key_table.keys-with_keys _ s)
        (select_key-kept c k row (key_table.keys s) _ has)
  stored-HasRow guard b status_code now s (some other) found has = rw (store, found) has

  -- A request leaves the row, whatever it asks for, whoever sends it, and however it ends.
  pub serve-HasRow :
      (endpoint : Endpoint S B) (claims : Claims) (key : Option String) (c' : String) (body : H)
      (now : ℕ) (s : S)
      → LeavesKeys key_table hash_request_body (endpoint.build claims)
      → HasRow s
      → HasRow (serve key_table hash_request_body endpoint claims key c' body now s).1
  serve-HasRow endpoint claims key c' body now s keep has =
      serve-Holds key_table HasRow
        (λ guard b status_code now s. stored-HasRow guard b status_code now s _ refl)
        hash_request_body endpoint claims key c' body now s
        (λ b s1 _ built. ap (select_key c k) (keep s s1 b built) ∙ has) has
