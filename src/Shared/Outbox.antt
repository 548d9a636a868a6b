-- ===== src/Shared/Outbox.antt =====
-- shared/outbox.py: the outbox table, and the envelopes that change data capture ships from it.
pub mod Ids
use car_flow_mvp.Base.{ℕ, String, List, [], ◌∷◌, ◌++◌}

-- A row of the `outbox` table. The payload's `event_type` and `data` are one value of the service's
-- type of messages; the trace context is not kept.
pub record OutboxRow (M : Type 0) : Type 0 where
  pub id : ℕ
  pub aggregate_type : String
  pub aggregate_id : ℕ
  pub message : M

-- What a consumer receives: the fields `event_id`, and `event_type` with `data`.
pub record Envelope (M : Type 0) : Type 0 where
  pub event_id : ℕ
  pub message : M

module _ {M : Type 0} where
  -- `event_id` is the value that the call of `uuid4` returns.
  abbrev pub write_outbox_event : ℕ → String → ℕ → M → List (OutboxRow M) → List (OutboxRow M)
  write_outbox_event event_id aggregate_type aggregate_id message rows =
      rows
      ++ record {
        id = event_id;
        aggregate_type = aggregate_type;
        aggregate_id = aggregate_id;
        message = message;
      }
        ∷ []

  abbrev pub envelope_of : OutboxRow M → Envelope M
  envelope_of row = record { event_id = row.id; message = row.message }
