-- ===== src/Booking/Settle.antt =====
-- What an operation on a stored booking does to the database, whichever of the eight it is: the
-- specification that the operations of services/booking/service.py implement.
use car_flow_mvp.Base.{
  ℕ, ◌+◌, ◌≤◌, ◌<◌, ◌≡◌, refl, sym, ◌⊎◌, inl, inr, Bool, ap, ◌∙◌, false, Option, none, some, List,
  [], ◌∷◌, ◌++◌, length, ⊤, ◌||◌, arith,
}
pub mod Inversion
pub mod Operations
pub mod Inspections
use mathlib.Core.List.{append-nil, append_assoc}
use car_flow_mvp.Base.Result.{Result, ok, err}
use car_flow_mvp.Base.Exec.{bind-ok, raise_if-ok, or_raise-ok, pure-ok, ◌>>=◌, ◌>>◌, pure}
use car_flow_mvp.Base.Table.{find, replace}
use car_flow_mvp.Shared.Outbox.{OutboxRow}
use car_flow_mvp.Booking.Domain.{BookingStatus, DomainEvent, Transition}
use car_flow_mvp.Booking.Domain.Lifecycle.{Command, decide}
use car_flow_mvp.Booking.Model.{Booking, BookingEvent, BookingMessage, BookingDb}
use car_flow_mvp.Booking.Repository.{
  BookingError, booking_key, state_of, has_event, insert_event, insert_events, append_events, save,
}
use car_flow_mvp.Booking.Service.{apply_transition, load, decided}

-- The rows that a list of events adds to the log.
abbrev pub logged : ℕ → ℕ → List DomainEvent → List BookingEvent
logged booking_id version [] = []
logged booking_id version (event ∷ events) =
    record { booking_id = booking_id; version = version + 1; event = event }
    ∷ logged booking_id (version + 1) events

-- The row that a transition makes of a row.
abbrev pub advance : Booking → Transition → Booking
advance booking t = record (apply_transition booking t) {
  version = booking.version + length t.events;
  status = t.next_status;
}

-- The operation moved the booking `before` by a transition that the domain allows, logged the
-- transition's events under the versions that follow the row's, which were free, and added
-- `sent` to the outbox. Nothing else is changed.
pub record Settled (c : Command) (db : BookingDb) (before after : Booking)
    (sent : List (OutboxRow BookingMessage)) (db' : BookingDb) : Type 0 where
  pub transition : Transition
  pub found : find booking_key before.id db.bookings ≡ some before
  pub allowed : decide c (state_of before) ≡ ok transition
  pub moved : after ≡ advance before transition
  pub free :
      (v : ℕ)
      → before.version < v
      → v ≤ before.version + length transition.events
      → has_event before.id v db.events ≡ false
  pub bookings : db'.bookings ≡ replace booking_key after db.bookings
  pub events : db'.events ≡ db.events ++ logged before.id before.version transition.events
  pub outbox : db'.outbox ≡ db.outbox ++ sent
  pub inbox : db'.inbox ≡ db.inbox
  pub keys : db'.keys ≡ db.keys

insert_event-ok :
    (id v : ℕ) (e : DomainEvent) (db db' : BookingDb) {x : ⊤}
    → insert_event id v e db ≡ (ok x, db')
    → (has_event id v db.events ≡ false)
      × (db' ≡ record db {
        events = db.events ++ record { booking_id = id; version = v; event = e } ∷ [];
      })
unfolding insert_event
insert_event-ok id v e db db' h = ground arith

pub has_event-append :
    (id v : ℕ) (xs ys : List BookingEvent)
    → has_event id v (xs ++ ys) ≡ (has_event id v xs || has_event id v ys)
unfolding has_event
has_event-append id v [] ys = refl
has_event-append id v (x ∷ xs) ys = ground (arith, has_event-append id v xs ys)

or_false : (a b : Bool) → (a || b) ≡ false → a ≡ false
or_false a b h = ground arith

split_le : {v k : ℕ} → v < k → (k ≡ v + 1) ⊎ (v + 1 < k)
split_le {v} {k} h = omega arith

insert_events-ok :
    (id v : ℕ) (es : List DomainEvent) (db db' : BookingDb) {x : ⊤}
    → insert_events id v es db ≡ (ok x, db')
    → (db' ≡ record db { events = db.events ++ logged id v es })
      × ((k : ℕ) → v < k → k ≤ v + length es → has_event id k db.events ≡ false)
unfolding insert_events
insert_events-ok id v [] db db' h = (
  sym (ap (λ (o : Result BookingError ⊤ × BookingDb). o.1) h)
      ∙ ap (λ (es : List BookingEvent). record db { events = es }) (sym (append-nil db.events)),
  λ k lo hi. absurd (omega arith),
)
insert_events-ok id v (e ∷ es) db db' h =
    let (u, db1, first, rest) =
      bind-ok (insert_event id (v + 1) e) (λ _. insert_events id (v + 1) es) db db' h in
    let (free, eq1) = insert_event-ok id (v + 1) e db db1 first in
    let (eq, later) = insert_events-ok id (v + 1) es db1 db' rest in
    let row : BookingEvent = record { booking_id = id; version = v + 1; event = e } in
    let seen = ap (λ (d : BookingDb). d.events) eq1 in
    (
      eq
          ∙ ap (λ (d : BookingDb). record d { events = d.events ++ logged id (v + 1) es }) eq1
          ∙ ap (λ (rows : List BookingEvent). record db { events = rows })
              (append_assoc db.events (row ∷ []) (logged id (v + 1) es)),
      λ k lo hi. elim (split_le lo) [
        | inl now ↦ rw now free
        | inr after ↦ or_false _ _ (
            sym (has_event-append id k db.events (row ∷ []))
            ∙ ap (has_event id k) (sym seen)
            ∙ later k after (omega arith))
      ],
    )

pub append_events-ok :
    (b b' : Booking) (es : List DomainEvent) (st : BookingStatus) (db db' : BookingDb)
    → append_events b es st db ≡ (ok b', db')
    → (b' ≡ record b { version = b.version + length es; status = st })
      × (db' ≡ record db { events = db.events ++ logged b.id b.version es })
      × ((k : ℕ) → b.version < k → k ≤ b.version + length es → has_event b.id k db.events ≡ false)
unfolding append_events
append_events-ok b b' es st db db' h =
    let (u, db1, first, rest) = bind-ok (insert_events b.id b.version es) _ db db' h in
    let (eq, free) = insert_events-ok b.id b.version es db db1 first in
    let (moved, same) = pure-ok _ db1 db' rest in (moved, same ∙ eq, free)
