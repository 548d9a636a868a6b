-- ===== src/Shared/Consumer/Redelivery.antt =====
-- The loop of shared/kafka_consumer.py when the broker delivers records again.
use car_flow_mvp.Base.{
  ℕ, ◌+◌, ◌≡◌, refl, sym, ap, subst, ◌∙◌, true, List, [], ◌∷◌, ◌++◌, ⊤, All, length, arith,
}
use car_flow_mvp.Base.Result.{Result, err}
use car_flow_mvp.Shared.Outbox.{Envelope}
use car_flow_mvp.Shared.Consumer.{InboxTable, contains, Handlers, process, run_consumer}
use car_flow_mvp.Shared.Consumer.ExactlyOnce.{
  LeavesInbox, process_claimed, process_claims, process_keeps_claims, process_raises, run_step,
  run_first,
}

module _ {S E M : Type 0} (table : InboxTable S) (handlers : Handlers S E M) where
  abbrev run : List (Envelope M) → S → ℕ × S
  run = run_consumer table handlers

  -- Every record's event is in the inbox.
  abbrev pub AllClaimed : List (Envelope M) → S → Type 0
  AllClaimed xs s = All (λ e. contains e.event_id (table.inbox s) ≡ true) xs

  run_claimed : (xs : List (Envelope M)) (s : S) → AllClaimed xs s → run xs s ≡ (length xs, s)
  unfolding run_consumer
  run_claimed [] s h = refl
  run_claimed (e ∷ xs) s h =
      run_step table handlers e xs s
        (ap (λ (o : Result E ⊤ × S). o.0) (process_claimed table handlers e s h.0))
      ∙ rw (process_claimed table handlers e s h.0, run_claimed xs s h.1)

  run_keeps_claims :
      LeavesInbox table handlers
      → (k : ℕ) (xs : List (Envelope M)) (s : S) → (run xs s).0 ≡ length xs
      → contains k (table.inbox s) ≡ true
      → contains k (table.inbox (run xs s).1) ≡ true
  unfolding run_consumer
  run_keeps_claims keep k [] s h known = known
  run_keeps_claims keep k (e ∷ xs) s h known =
      let first = run_first table handlers e xs s (length xs) h in
      rw (run_step table handlers e xs s first.0) (
        run_keeps_claims keep k xs (process table handlers e s).1 first.1
          (process_keeps_claims table handlers keep k e s first.0 known))

  run_claims :
      LeavesInbox table handlers
      → (xs : List (Envelope M)) (s : S) → (run xs s).0 ≡ length xs
      → AllClaimed xs (run xs s).1
  unfolding run_consumer
  run_claims keep [] s h = tt
  run_claims keep (e ∷ xs) s h =
      let first = run_first table handlers e xs s (length xs) h in
      let s' = (process table handlers e s).1 in
      subst (λ (o : ℕ × S). AllClaimed (e ∷ xs) o.1) (sym (run_step table handlers e xs s first.0))
        (
          run_keeps_claims keep e.event_id xs s' first.1
              (process_claims table handlers keep e s first.0),
          run_claims keep xs s' first.1,
        )

  run-append :
      (xs ys : List (Envelope M)) (s : S)
      → (run xs s).0 ≡ length xs
      → run (xs ++ ys) s ≡ (length xs + (run ys (run xs s).1).0, (run ys (run xs s).1).1)
  unfolding run_consumer
  run-append [] ys s h = ground arith
  run-append (e ∷ xs) ys s h =
      let first = run_first table handlers e xs s (length xs) h in
      let s' = (process table handlers e s).1 in
      run_step table handlers e (xs ++ ys) s first.0
      ∙ rw (run_step table handlers e xs s first.0, run-append xs ys s' first.1) (ground arith)

  -- Once a run of records has been handled, restarting the consumer at the first of them leaves
  -- exactly the database that going on after the last of them leaves.
  pub redelivery_harmless :
      LeavesInbox table handlers
      → (xs ys : List (Envelope M)) (s : S) → (run_consumer table handlers xs s).0 ≡ length xs
      → let s' = (run_consumer table handlers xs s).1 in
        (run_consumer table handlers (xs ++ ys) s').1 ≡ (run_consumer table handlers ys s').1
  redelivery_harmless keep xs ys s h =
      let s' = (run xs s).1 in
      let again = run_claimed xs s' (run_claims keep xs s h) in
      ap (λ (o : ℕ × S). o.1) (run-append xs ys s' (ap (λ (o : ℕ × S). o.0) again))
      ∙ ap (λ (o : ℕ × S). (run ys o.1).1) again

  -- A record whose handler raises stops the consumer in front of it: nothing is committed and the
  -- database is as it was, whatever records stand behind it.
  pub poison_blocks :
      (e : Envelope M) (xs : List (Envelope M)) (s : S) {x : E}
      → (process table handlers e s).0 ≡ err x
      → run_consumer table handlers (e ∷ xs) s ≡ (0, s)
  unfolding run_consumer
  poison_blocks e xs s h = ground (arith, process_raises table handlers e s h)
