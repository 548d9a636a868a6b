-- ===== src/Booking/Settle/Inversion.antt =====
-- What a stored booking's operation that returned has gone through, step by step.
use mathlib.Core.List.{append-nil}
use car_flow_mvp.Base.{
  ℕ, ◌≡◌, sym, ap, subst, ◌∙◌, false, some, List, [], ◌++◌, ◌==◌, not, ⊤, arith, ◌+◌, length,
}
use car_flow_mvp.Base.Result.{Result, ok, err}
use car_flow_mvp.Base.Exec.{bind-ok, raise_if-ok, or_raise-ok, pure-ok, pure, modify, ◌>>=◌, ◌>>◌}
use car_flow_mvp.Base.Table.{find, find-key, replace}
use car_flow_mvp.Shared.Outbox.{OutboxRow}
use car_flow_mvp.Booking.Domain.{BookingState, DomainError, Transition}
use car_flow_mvp.Booking.Domain.Lifecycle.{Command, decide}
use car_flow_mvp.Booking.Model.{Booking, BookingMessage, BookingDb}
use car_flow_mvp.Booking.Repository.{
  not_booking_party, Action, booking_key, state_of, has_event, get_by_id, append_events, save,
}
use car_flow_mvp.Booking.Service.{apply_transition, load, decided, require_host}
use car_flow_mvp.Booking.Settle.{Settled, logged, append_events-ok}

not_ne : (a b : ℕ) → not (a == b) ≡ false → a ≡ b
not_ne a b h = ground arith

pub load-ok :
    (id : ℕ) (b : Booking) (db db' : BookingDb)
    → load id db ≡ (ok b, db')
    → (find booking_key b.id db.bookings ≡ some b) × (b.id ≡ id) × (db' ≡ db)
unfolding get_by_id
load-ok id b db db' h =
    let (found, same) = or_raise-ok _ (find booking_key id db.bookings) db db' h in
    let named = find-key booking_key id b db.bookings found in
    (subst (λ (k : ℕ). find booking_key k db.bookings ≡ some b) (sym named) found, named, same)

pub decided-ok :
    {A : Type 0} (r : Result DomainError A) (a : A) (db db' : BookingDb)
    → decided r db ≡ (ok a, db')
    → (r ≡ ok a) × (db' ≡ db)
decided-ok (ok x) a db db' h = (cc, cc)
decided-ok (err x) a db db' h = cc

apply_transition_keeps :
    (b : Booking) (t : Transition)
    → ((apply_transition b t).id ≡ b.id) × ((apply_transition b t).version ≡ b.version)
unfolding apply_transition
apply_transition_keeps b t = ground arith

-- The common end: the events are appended, messages are sent, and the row is saved.
module _ (c : Command) (db : BookingDb) (before : Booking) (t : Transition) where
  pub finish :
      (b : Booking) (mid db' : BookingDb) (sent : List (OutboxRow BookingMessage))
      → find booking_key before.id db.bookings ≡ some before
      → decide c (state_of before) ≡ ok t
      → append_events (apply_transition before t) t.events t.next_status db ≡ (ok b, mid)
      → db'
        ≡ record mid { outbox = mid.outbox ++ sent; bookings = replace booking_key b mid.bookings }
      → Settled c db before b sent db'
  finish b mid db' sent found allowed appended saved =
      let start = apply_transition before t in
      let (same_id, same_version) = apply_transition_keeps before t in
      let (moved, logged_, free) =
        append_events-ok start b t.events t.next_status db mid appended in
      let all =
        saved
        ∙ ap
            (λ (d : BookingDb). record d {
              outbox = d.outbox ++ sent;
              bookings = replace booking_key b d.bookings;
            })
            logged_ in
      record {
        transition = t;
        found = found;
        allowed = allowed;
        moved =
            moved
            ∙ ap (λ (v : ℕ). record start { version = v + length t.events; status = t.next_status })
                same_version;
        free = λ v lo hi.
            subst (λ (id : ℕ). has_event id v db.events ≡ false) same_id
              (free v (omega arith) (omega arith));
        bookings = ap (λ (d : BookingDb). d.bookings) all;
        events =
            ap (λ (d : BookingDb). d.events) all
            ∙ ap (λ (id : ℕ). db.events ++ logged id start.version t.events) same_id
            ∙ ap (λ (v : ℕ). db.events ++ logged before.id v t.events) same_version;
        outbox = ap (λ (d : BookingDb). d.outbox) all;
        inbox = ap (λ (d : BookingDb). d.inbox) all;
        keys = ap (λ (d : BookingDb). d.keys) all;
      }

-- The rest of an operation: append the events, send, and save the row.
abbrev pub closing :
    Booking → Transition → (Booking → List (OutboxRow BookingMessage)) → Action Booking
closing start t sent = do
  booking ← append_events start t.events t.next_status
  modify (λ db. record db { outbox = db.outbox ++ sent booking })
  save booking
  pure booking

pub closing-ok :
    (c : Command) (db db' : BookingDb) (before b : Booking) (t : Transition) (start : Booking)
    (sent : Booking → List (OutboxRow BookingMessage))
    → find booking_key before.id db.bookings ≡ some before
    → decide c (state_of before) ≡ ok t
    → apply_transition before t ≡ start
    → closing start t sent db ≡ (ok b, db')
    → Settled c db before b (sent b) db'
unfolding save
closing-ok c db db' before b t start sent found allowed applied h =
    let (x, mid, h1, rest) = bind-ok (append_events start t.events t.next_status) _ db db' h in
    let (same, saved) = pure-ok x _ db' rest in
    subst (λ (y : Booking). Settled c db before y (sent y) db') (sym same)
      (finish c db before t x mid db' (sent x) found allowed (rw applied h1) saved)

-- The same with nothing to send.
abbrev pub silent_closing : Booking → Transition → Action Booking
silent_closing start t = do
  booking ← append_events start t.events t.next_status
  save booking
  pure booking

pub silent_closing-ok :
    (c : Command) (db db' : BookingDb) (before b : Booking) (t : Transition)
    → find booking_key before.id db.bookings ≡ some before
    → decide c (state_of before) ≡ ok t
    → silent_closing (apply_transition before t) t db ≡ (ok b, db')
    → Settled c db before b [] db'
unfolding save
silent_closing-ok c db db' before b t found allowed h =
    let start = apply_transition before t in
    let (x, mid, h1, rest) = bind-ok (append_events start t.events t.next_status) _ db db' h in
    let (same, saved) = pure-ok x _ db' rest in
    let nothing =
      ap
        (λ (rows : List (OutboxRow BookingMessage)). record mid {
          outbox = rows;
          bookings = replace booking_key x mid.bookings;
        })
        (sym (append-nil mid.outbox)) in
    subst (λ (y : Booking). Settled c db before y [] db') (sym same)
      (finish c db before t x mid db' [] found allowed h1 (saved ∙ nothing))

module _ {A : Type 0} (dec : BookingState → Result DomainError A) (k : Booking → A → Action Booking)
    (id : ℕ) (db db' : BookingDb) (b : Booking) where
  -- What is known of the row and of the decision once an operation has returned.
  abbrev Passed : (Booking → Type 0) → Type 0
  Passed P =
      (before : Booking) × (a : A) × (before.id ≡ id)
      × (find booking_key before.id db.bookings ≡ some before)
      × P before
      × (dec (state_of before) ≡ ok a)
      × (k before a db ≡ (ok b, db'))

  decision-ok :
      (before : Booking)
      → (decided (dec (state_of before)) >>= k before) db ≡ (ok b, db')
      → (a : A) × (dec (state_of before) ≡ ok a) × (k before a db ≡ (ok b, db'))
  decision-ok before h =
      let (a, d, h1, rest) = bind-ok (decided (dec (state_of before))) (k before) db db' h in
      let (allowed, same) = decided-ok (dec (state_of before)) a db d h1 in
      (a, allowed, subst (λ (d : BookingDb). k before a d ≡ (ok b, db')) same rest)

  -- An operation for any caller, such as a reaction to an event.
  pub reaction-ok :
      (do found ← load id; a ← decided (dec (state_of found)); k found a) db ≡ (ok b, db')
      → Passed (λ before. ⊤)
  reaction-ok h =
      let then_decide = λ (x : Booking). decided (dec (state_of x)) >>= k x in
      let (before, d, h1, rest) = bind-ok (load id) then_decide db db' h in
      let (found, named, same) = load-ok id before db d h1 in
      let (a, allowed, last) =
        decision-ok before
          (subst (λ (d : BookingDb). then_decide before d ≡ (ok b, db')) same rest) in
      (before, a, named, found, tt, allowed, last)

  -- An operation for the host alone.
  pub hosted-ok :
      (host_id : ℕ)
      → (do
        found ← load id
        require_host found host_id
        a ← decided (dec (state_of found))
        k found a)
          db
        ≡ (ok b, db')
      → Passed (λ before. before.host_id ≡ host_id)
  hosted-ok host_id h =
      let then_decide = λ (x : Booking). decided (dec (state_of x)) >>= k x in
      let checked = λ (x : Booking). require_host x host_id >> then_decide x in
      let (before, d, h1, rest) = bind-ok (load id) checked db db' h in
      let (found, named, same) = load-ok id before db d h1 in
      let (u, d2, h2, rest2) =
        bind-ok (require_host before host_id) (λ _. then_decide before) d db' rest in
      let (party, same2) =
        raise_if-ok (not (before.host_id == host_id)) not_booking_party d d2 h2 in
      let (a, allowed, last) =
        decision-ok before
          (subst (λ (d : BookingDb). then_decide before d ≡ (ok b, db')) (same2 ∙ same) rest2) in
      (before, a, named, found, not_ne before.host_id host_id party, allowed, last)
