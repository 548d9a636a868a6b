-- ===== src/Tests/Requests.antt =====
-- Concrete runs of the idempotency guard and of the consumer loop, on a database with one number in
-- it beside the table that each of them needs.
use car_flow_mvp.Base.{
  ℕ, ◌+◌, ◌≡◌, refl, sym, ap, ⊤, none, some, String, List, [], ◌∷◌, ◌++◌, length,
}
use car_flow_mvp.Base.Result.{Result, ok, err}
use car_flow_mvp.Base.Exec.{Exec}
use car_flow_mvp.Shared.Outbox.{Envelope}
use car_flow_mvp.Shared.Http.{Failure, server_error}
use car_flow_mvp.Shared.Consumer.{
  InboxTable, claim_event, Handlers, dispatch, process, run_consumer,
}
use car_flow_mvp.Shared.Consumer.ExactlyOnce.{LeavesInbox, process_raises}
use car_flow_mvp.Shared.Consumer.Redelivery.{redelivery_harmless}
use car_flow_mvp.Shared.Idempotency.{
  IdempotencyRow, KeyTable, select_key, make_guard, store, respond_idempotently,
}
use car_flow_mvp.Shared.Idempotency.Replay.{request}
use car_flow_mvp.Shared.Idempotency.Retry.{LeavesKeys, retry_same_answer}

-- The keys, and a counter.
abbrev Counted : Type 0
Counted = List (IdempotencyRow ℕ) × ℕ

abbrev counted_keys : KeyTable Counted ℕ
counted_keys = record {
  keys = λ s. s.0;
  with_keys = λ rows s. (rows, s.1);
  keys-with_keys = λ rows s. refl;
}

abbrev hash_itself : String → String
hash_itself body = body

-- Adds one, and answers the old number.
abbrev count_up : Exec Counted Failure ℕ
count_up s = (ok s.1, (s.0, s.1 + 1))

abbrev untouched : Counted
untouched = ([], 40)

abbrev answered : Counted
answered = (request counted_keys hash_itself "caller" "key" "body" 201 5 count_up untouched).1

count_up-LeavesKeys : LeavesKeys counted_keys hash_itself count_up
count_up-LeavesKeys s s' b h = ap (λ (o : Result Failure ℕ × Counted). o.1.0) (sym h)

first_answer :
    (request counted_keys hash_itself "caller" "key" "body" 201 5 count_up untouched).0
    ≡ ok (record { status_code = 201; content = 40 })
unfolding request make_guard respond_idempotently store select_key
first_answer = refl

-- The retry's own work would count again, and answer 200.
retry_same_answer_example :
    request counted_keys hash_itself "caller" "key" "body" 200 9 count_up answered
    ≡ (ok (record { status_code = 201; content = 40 }), answered)
retry_same_answer_example =
    retry_same_answer counted_keys hash_itself "caller" "key" "body" 201 5 200 9 count_up count_up
      untouched answered count_up-LeavesKeys first_answer refl

-- The inbox, and a counter.
abbrev Inboxed : Type 0
Inboxed = List ℕ × ℕ

abbrev numbered_inbox : InboxTable Inboxed
numbered_inbox = record {
  inbox = λ s. s.0;
  with_inbox = λ ids s. (ids, s.1);
  inbox-with_inbox = λ ids s. refl;
}

-- One message is counted, one is refused by its handler, and one has no handler.
data Letter : Type 0 where
  counted refused unknown : Letter

abbrev letter_handlers : Handlers Inboxed Failure Letter
letter_handlers counted = some (λ s. (ok tt, (s.0, s.1 + 1)))
letter_handlers refused = some (λ s. (err server_error, s))
letter_handlers unknown = none

letter_handlers-LeavesInbox : LeavesInbox numbered_inbox letter_handlers
unfolding dispatch
letter_handlers-LeavesInbox counted s s' h = ap (λ (o : Result Failure ⊤ × Inboxed). o.1.0) (sym h)
letter_handlers-LeavesInbox refused s s' h = ap (λ (o : Result Failure ⊤ × Inboxed). o.1.0) (sym h)
letter_handlers-LeavesInbox unknown s s' h = ap (λ (o : Result Failure ⊤ × Inboxed). o.1.0) (sym h)

abbrev letters : List (Envelope Letter)
letters =
    record { event_id = 1; message = counted }
    ∷ record { event_id = 2; message = unknown }
    ∷ record { event_id = 3; message = counted }
    ∷ []

abbrev more_letters : List (Envelope Letter)
more_letters = record { event_id = 4; message = counted } ∷ []

letters_handled : (run_consumer numbered_inbox letter_handlers letters ([], 0)).0 ≡ length letters
unfolding run_consumer process claim_event dispatch
letters_handled = refl

redelivery_harmless_example :
    let s' = (run_consumer numbered_inbox letter_handlers letters ([], 0)).1 in
    (run_consumer numbered_inbox letter_handlers (letters ++ more_letters) s').1
    ≡ (run_consumer numbered_inbox letter_handlers more_letters s').1
redelivery_harmless_example =
    redelivery_harmless numbered_inbox letter_handlers letter_handlers-LeavesInbox letters
      more_letters ([], 0) letters_handled

abbrev refused_letter : Envelope Letter
refused_letter = record { event_id = 5; message = refused }

refused_raises :
    (process numbered_inbox letter_handlers refused_letter ([], 0)).0 ≡ err server_error
unfolding process claim_event dispatch
refused_raises = refl

process_raises_example : (process numbered_inbox letter_handlers refused_letter ([], 0)).1 ≡ ([], 0)
process_raises_example =
    process_raises numbered_inbox letter_handlers refused_letter ([], 0) refused_raises
