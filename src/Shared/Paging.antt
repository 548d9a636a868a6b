-- ===== src/Shared/Paging.antt =====
-- A page of a list, as the list endpoints of the services compute it: one row more than the limit is
-- read, and whether it is there says whether rows are left. The limit and the offset are any integers.
use mathlib.Core.List.{map}
use car_flow_mvp.Base.Int.{ℤ, pos, negsuc, sub_ℕ, ltb_ℤ, ◌+ℤ◌}
use car_flow_mvp.Base.Result.{Result, ok, err}
use car_flow_mvp.Shared.Http.{Failure, server_error}
use car_flow_mvp.Base.{
  ℕ, ◌+◌, ◌-◌, zero, suc, ◌≡◌, refl, ap, ◌∙◌, Bool, true, false, ◌&&◌, Option, none, some, List, [],
  ◌∷◌, length, take, drop, ltb, if◌then◌else◌, arith,
}

pub record Page (B : Type 0) : Type 0 where
  pub items : List B
  pub next_offset : Option ℤ

is_beyond : (a b n : ℕ) → ltb a (n - b) ≡ ltb (b + a) n
is_beyond a b n = ground arith

-- LIMIT ... OFFSET ..., for numbers that the database's driver can send; PostgreSQL raises an error
-- where one of them is negative.
abbrev pub sql_page : {A : Type 0} → (limit offset : ℤ) → List A → Option (List A)
sql_page (pos limit) (pos offset) rows = some (take limit (drop offset rows))
sql_page _ _ rows = none

-- The same for any numbers: the driver raises an error for one that it cannot send.
abbrev pub sent_page : {A : Type 0} → (ℤ → Bool) → (limit offset : ℤ) → List A → Option (List A)
sent_page can_send limit offset rows =
    if can_send limit && can_send offset then sql_page limit offset rows else none

-- `rows[:limit]`, where a negative limit counts from the end.
abbrev pub slice : {A : Type 0} → ℤ → List A → List A
slice (pos limit) rows = take limit rows
slice (negsuc n) rows = take (length rows - suc n) rows

module _ {A B : Type 0} (response : A → B) where
  -- The answer of a list endpoint, from the rows that were read.
  abbrev pub page_of : (limit offset : ℤ) → List A → Page B
  page_of limit offset rows = record {
    items = map response (slice limit rows);
    next_offset = if ltb_ℤ limit (pos (length rows)) then some (offset +ℤ limit) else none;
  }

module _ {A : Type 0} where
  take-take : (n : ℕ) (xs : List A) → take n (take (suc n) xs) ≡ take n xs
  take-take zero xs = refl
  take-take (suc n) [] = refl
  take-take (suc n) (x ∷ xs) = rw (take-take n xs)

  more_than : (n : ℕ) (xs : List A) → ltb n (length (take (suc n) xs)) ≡ ltb n (length xs)
  more_than zero [] = ground arith
  more_than zero (x ∷ xs) = ground arith
  more_than (suc n) [] = ground arith
  more_than (suc n) (x ∷ xs) = ground (arith, more_than n xs)

  pub length-drop : (n : ℕ) (xs : List A) → length (drop n xs) ≡ length xs - n
  length-drop zero xs = ground arith
  length-drop (suc n) [] = ground arith
  length-drop (suc n) (x ∷ xs) = ground (arith, length-drop n xs)

module _ {A B : Type 0} (response : A → B) where
  -- From the offset on at most the limit's number of rows, and the next offset exactly if rows are left.
  abbrev pub whole_page : (limit offset : ℕ) → List A → Page B
  whole_page limit offset xs = record {
    items = map response (take limit (drop offset xs));
    next_offset = if ltb (offset + limit) (length xs) then some (pos (offset + limit)) else none;
  }

  -- What a list endpoint answers to a limit and an offset: a page; for the limit -1 no items, and the
  -- offset before; and for any other negative number an error.
  abbrev pub answer_page : (limit offset : ℤ) → List A → Result Failure (Page B)
  answer_page (pos limit) (pos offset) xs = ok (whole_page limit offset xs)
  answer_page (negsuc zero) (pos offset) xs =
      ok (record { items = []; next_offset = some (sub_ℕ offset 1) })
  answer_page _ _ xs = err server_error

  -- The rows that an endpoint reads, and its page of them.
  abbrev pub read_page : (limit offset : ℤ) → Option (List A) → Result Failure (Page B)
  read_page limit offset none = err server_error
  read_page limit offset (some rows) = ok (page_of response limit offset rows)

  plain : (a b : ℕ) → ltb_ℤ (pos a) (pos b) ≡ ltb a b
  plain a b = ground arith

  one_more : (limit : ℕ) → pos limit +ℤ pos 1 ≡ pos (suc limit)
  unfolding ◌+ℤ◌
  one_more limit = ground arith

  pos_sum : (a b : ℕ) → pos a +ℤ pos b ≡ pos (a + b)
  unfolding ◌+ℤ◌
  pos_sum a b = ground arith

  below_one : (n : ℕ) → negsuc (suc n) +ℤ pos 1 ≡ negsuc n
  unfolding ◌+ℤ◌
  below_one n = ground arith

  one_back : (offset : ℕ) → pos offset +ℤ negsuc 0 ≡ sub_ℕ offset 1
  unfolding ◌+ℤ◌
  one_back offset = ground arith

  none_asked : negsuc 0 +ℤ pos 1 ≡ pos 0
  unfolding ◌+ℤ◌
  none_asked = refl

  pub read_page_lem :
      (limit offset : ℤ) (xs : List A)
      → read_page limit offset (sql_page (limit +ℤ pos 1) offset xs) ≡ answer_page limit offset xs
  read_page_lem (pos limit) (pos offset) xs =
      let flag : ltb limit (length (take (suc limit) (drop offset xs)))
          ≡ ltb (offset + limit) (length xs) =
        more_than limit (drop offset xs)
        ∙ ap (ltb limit) (length-drop offset xs)
        ∙ is_beyond limit offset (length xs) in
      rw
        (
          one_more limit,
          take-take limit (drop offset xs),
          plain limit (length (take (suc limit) (drop offset xs))),
          flag,
          pos_sum offset limit,
        )
        refl
  read_page_lem (negsuc zero) (pos offset) xs = rw (none_asked, one_back offset) refl
  read_page_lem (negsuc (suc n)) (pos offset) xs = rw (below_one n) refl
  read_page_lem (pos limit) (negsuc o) xs = rw (one_more limit) refl
  read_page_lem (negsuc zero) (negsuc o) xs = rw (none_asked) refl
  read_page_lem (negsuc (suc n)) (negsuc o) xs = rw (below_one n) refl

  if_sent :
      (t : Bool) (limit offset : ℤ) (o : Option (List A)) (answer : Result Failure (Page B))
      → read_page limit offset o ≡ answer
      → read_page limit offset (if t then o else none) ≡ (if t then answer else err server_error)
  if_sent true limit offset o answer e = e
  if_sent false limit offset o answer e = refl

  pub sent_page-answer :
      (can_send : ℤ → Bool) (limit offset : ℤ) (xs : List A)
      → read_page limit offset (sent_page can_send (limit +ℤ pos 1) offset xs) ≡ (
          if can_send (limit +ℤ pos 1) && can_send offset
          then answer_page limit offset xs
          else err server_error)
  sent_page-answer can_send limit offset xs =
      if_sent (can_send (limit +ℤ pos 1) && can_send offset) limit offset _ _
        (read_page_lem limit offset xs)
