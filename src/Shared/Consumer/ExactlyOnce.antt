-- ===== src/Shared/Consumer/ExactlyOnce.antt =====
-- Delivery at least once, and effects exactly once.
use car_flow_mvp.Base.{
  Option-cases, none, some, ◌⊎◌, ℕ, ◌≡◌, sym, ap, ◌∙◌, suc, true, false, List, ◌∷◌, ==_refl, ⊤,
  arith, Bool-cases, inl, inr,
}
use car_flow_mvp.Base.Result.{Result, ok, err}
use car_flow_mvp.Base.Exec.{Exec, continue, settle, settle-ok, settle-err}
use car_flow_mvp.Shared.Outbox.{Envelope}
use car_flow_mvp.Shared.Consumer.{
  InboxTable, contains, claim_event, Handlers, dispatch, process, run_consumer,
}

contains_head : (k : ℕ) (xs : List ℕ) → contains k (k ∷ xs) ≡ true
contains_head k xs = rw ==_refl

contains_tail : (k e : ℕ) (xs : List ℕ) → contains k xs ≡ true → contains k (e ∷ xs) ≡ true
contains_tail k e xs h = ground arith

module _ {S E M : Type 0} (table : InboxTable S) (handlers : Handlers S E M) where
  -- No handler that returns writes to the inbox.
  abbrev pub LeavesInbox : Type 0
  LeavesInbox =
      (m : M) (s s' : S)
      → dispatch table handlers m s ≡ (ok tt, s')
      → table.inbox s' ≡ table.inbox s

  -- An event that is in the inbox is acknowledged, and changes nothing.
  pub process_claimed :
      (e : Envelope M) (s : S)
      → contains e.event_id (table.inbox s) ≡ true
      → process table handlers e s ≡ (ok tt, s)
  unfolding process claim_event
  process_claimed e s h = rw (h, claim_event, continue)

  -- Any other event is claimed and handled in one transaction.
  process_new :
      (e : Envelope M) (s : S)
      → contains e.event_id (table.inbox s) ≡ false
      → process table handlers e s
        ≡ settle s
            (dispatch table handlers e.message (table.with_inbox (e.event_id ∷ table.inbox s) s))
  unfolding process claim_event
  process_new e s h = rw (h, claim_event, continue)

  -- An event whose handler raises leaves the database as it was, its claim included.
  pub process_raises :
      (e : Envelope M) (s : S) {x : E}
      → (process table handlers e s).0 ≡ err x
      → (process table handlers e s).1 ≡ s
  unfolding process
  process_raises e s h = settle-err s _ h

  -- Where handling an event returns, the event was known and nothing changed, or it was claimed and its
  -- handler returned.
  pub process-ok :
      (e : Envelope M) (s s' : S)
      → process table handlers e s ≡ (ok tt, s')
      → (s' ≡ s)
        ⊎ (dispatch table handlers e.message (table.with_inbox (e.event_id ∷ table.inbox s) s)
            ≡ (ok tt, s'))
  process-ok e s s' h = elim (Bool-cases (contains e.event_id (table.inbox s))) [
    | inl old ↦ inl (ap (λ (o : Result E ⊤ × S). o.1) (sym h ∙ process_claimed e s old))
    | inr new ↦
        let claimed = table.with_inbox (e.event_id ∷ table.inbox s) s in
        let out = dispatch table handlers e.message claimed in
        let settled = sym (process_new e s new) ∙ h in
        inr (sym (settle-ok s out (ap (λ (o : Result E ⊤ × S). o.0) settled)).1 ∙ settled)
  ]

  -- Where a dispatch returns, there is no handler and nothing changed, or the handler returned.
  pub dispatch-ok :
      (m : M) (s s' : S)
      → dispatch table handlers m s ≡ (ok tt, s')
      → ((handlers m ≡ none) × (s' ≡ s))
        ⊎ ((handler : Exec S E ⊤) × (handlers m ≡ some handler) × (handler s ≡ (ok tt, s')))
  unfolding dispatch
  dispatch-ok m s s' h = elim (Option-cases (handlers m)) [
    | inl absent ↦
        let idle : dispatch table handlers m s ≡ (ok tt, s) = rw (absent, dispatch) in
        inl (absent, ap (λ (o : Result E ⊤ × S). o.1) (sym h ∙ idle))
    | inr (handler, present) ↦
        let same : dispatch table handlers m s ≡ handler s = rw (present, dispatch) in
        inr (handler, present, sym same ∙ h)
  ]

  inbox_new :
      LeavesInbox
      → (e : Envelope M) (s : S) → contains e.event_id (table.inbox s) ≡ false
      → (process table handlers e s).0 ≡ ok tt
      → table.inbox (process table handlers e s).1 ≡ e.event_id ∷ table.inbox s
  inbox_new keep e s new h =
      let s' = table.with_inbox (e.event_id ∷ table.inbox s) s in
      let out = dispatch table handlers e.message s' in
      let same = process_new e s new in
      let done = settle-ok s out (ap (λ (o : Result E ⊤ × S). o.0) (sym same) ∙ h) in
      ap (λ (o : Result E ⊤ × S). table.inbox o.1) (same ∙ done.1)
      ∙ keep e.message s' out.1 (ap (λ (r : Result E ⊤). (r, out.1)) done.0)
      ∙ table.inbox-with_inbox _ s

  -- A handled event is claimed.
  pub process_claims :
      LeavesInbox
      → (e : Envelope M) (s : S) → (process table handlers e s).0 ≡ ok tt
      → contains e.event_id (table.inbox (process table handlers e s).1) ≡ true
  process_claims keep e s h = elim (Bool-cases (contains e.event_id (table.inbox s))) [
    | inl old ↦ rw (process_claimed e s old) old
    | inr new ↦ rw (inbox_new keep e s new h) (contains_head e.event_id (table.inbox s))
  ]

  -- No claim is lost by handling an event.
  pub process_keeps_claims :
      LeavesInbox
      → (k : ℕ) (e : Envelope M) (s : S) → (process table handlers e s).0 ≡ ok tt
      → contains k (table.inbox s) ≡ true
      → contains k (table.inbox (process table handlers e s).1) ≡ true
  process_keeps_claims keep k e s h known =
      elim (Bool-cases (contains e.event_id (table.inbox s))) [
        | inl old ↦ rw (process_claimed e s old) known
        | inr new ↦ rw (inbox_new keep e s new h) (contains_tail k e.event_id (table.inbox s) known)
      ]

  pub run_step :
      (e : Envelope M) (xs : List (Envelope M)) (s : S)
      → (process table handlers e s).0 ≡ ok tt
      → run_consumer table handlers (e ∷ xs) s ≡ (
        suc (run_consumer table handlers xs (process table handlers e s).1).0,
        (run_consumer table handlers xs (process table handlers e s).1).1,
      )
  unfolding run_consumer
  run_step e xs s h = ground arith

  -- Where a record is handled, the whole run counts one more than the rest of it.
  pub run_first :
      (e : Envelope M) (xs : List (Envelope M)) (s : S) (n : ℕ)
      → (run_consumer table handlers (e ∷ xs) s).0 ≡ suc n
      → ((process table handlers e s).0 ≡ ok tt)
        × ((run_consumer table handlers xs (process table handlers e s).1).0 ≡ n)
  unfolding run_consumer
  run_first e xs s n h = ground arith
