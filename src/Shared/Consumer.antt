-- ===== src/Shared/Consumer.antt =====
-- shared/inbox.py and shared/kafka_consumer.py: claiming an event, handling it in the transaction
-- that claimed it, and the loop over the records of a topic.
pub mod ExactlyOnce
pub mod Redelivery
use car_flow_mvp.Base.{
  ℕ, zero, suc, ◌≡◌, Bool, true, false, ◌||◌, Option, none, some, List, [], ◌∷◌, ◌==◌, ⊤,
  if◌then◌else◌,
}
use car_flow_mvp.Base.Result.{Result, ok, err}
use car_flow_mvp.Base.Exec.{Exec, pure, ◌>>=◌, when, transact}
use car_flow_mvp.Shared.Outbox.{Envelope}

-- The inbox table of a service's database: the event ids that it holds.
pub record InboxTable (S : Type 0) : Type 0 where
  pub inbox : S → List ℕ
  pub with_inbox : List ℕ → S → S
  pub inbox-with_inbox : (ids : List ℕ) (s : S) → inbox (with_inbox ids s) ≡ ids

abbrev pub contains : ℕ → List ℕ → Bool
contains k [] = false
contains k (x ∷ xs) = (x == k) || contains k xs

module _ {S : Type 0} (table : InboxTable S) {E : Type 0} where
  -- INSERT ... ON CONFLICT DO NOTHING, and whether a row was inserted.
  unfoldable pub claim_event : ℕ → Exec S E Bool
  claim_event event_id s =
      if contains event_id (table.inbox s)
      then (ok false, s)
      else (ok true, table.with_inbox (event_id ∷ table.inbox s) s)

-- The `handlers` of a service: for each message its handler, if its type has one.
abbrev pub Handlers : Type 0 → Type 0 → Type 0 → Type 0
Handlers S E M = M → Option (Exec S E ⊤)

module _ {S E M : Type 0} (table : InboxTable S) (handlers : Handlers S E M) where
  unfoldable pub dispatch : M → Exec S E ⊤
  dispatch message = elim (handlers message) [ none ↦ pure tt | some handler ↦ handler ]

  -- The `process` of `postgres_inbox_processor`: one transaction.
  unfoldable pub process : Envelope M → Exec S E ⊤
  unfolding claim_event dispatch
  process envelope =
      transact
        (do claimed ← claim_event table envelope.event_id; when claimed (dispatch envelope.message))

  -- `run_consumer` on the records from the committed offset on: how many it commits before the
  -- topic ends or an exception stops it, and the database that it leaves.
  unfoldable pub run_consumer : List (Envelope M) → S → ℕ × S
  run_consumer [] s = (0, s)
  run_consumer (envelope ∷ records) s =
      let (r, s') = process envelope s in
      let rest = run_consumer records s' in elim r [ ok _ ↦ (suc rest.0, rest.1) | err _ ↦ (0, s') ]
