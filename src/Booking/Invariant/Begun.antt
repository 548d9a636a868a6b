-- ===== src/Booking/Invariant/Begun.antt =====
-- The invariant holds of empty tables, and is kept when a booking is created.
use mathlib.Core.List.{append-nil}
use car_flow_mvp.Base.{
  ℕ, ◌≤◌, ◌≡◌, refl, sym, ap, subst, ◌∙◌, Bool, true, false, ◌&&◌, ◌||◌, not, Option, none, some,
  List, [], ◌∷◌, ◌++◌, ◌==◌, ==→eq, is_some, if◌then◌else◌, arith, Bool-cases, inl, inr,
}
use car_flow_mvp.Base.Table.{find, find-append_one}
use car_flow_mvp.Shared.Outbox.{OutboxRow}
use car_flow_mvp.Booking.Domain.{BookingStatus, DomainEvent, requested, booking_requested}
use car_flow_mvp.Booking.Domain.Lifecycle.{replay_status}
use car_flow_mvp.Booking.Model.{Booking, BookingEvent, BookingMessage, BookingDb}
use car_flow_mvp.Booking.Repository.{booking_key, has_event}
use car_flow_mvp.Booking.Settle.{has_event-append}
use car_flow_mvp.Booking.Create.{Created}
use car_flow_mvp.Booking.Invariant.{IsConsistent, Apart, in_log, history, is_driven}
use car_flow_mvp.Booking.Invariant.Overlap.{Apart-append}
use car_flow_mvp.Booking.Invariant.Log.{history-append, history-absent}

abbrev pub empty_db : BookingDb
empty_db = record { bookings = []; events = []; outbox = []; inbox = []; keys = [] }

pub empty-IsConsistent : IsConsistent empty_db
unfolding has_event find
empty-IsConsistent = record {
  apart = tt;
  log = λ id v. refl;
  versioned = λ id b h. cc;
  replayed = λ id b h. cc;
  equipped = λ id b h. cc;
}

-- The first row of a booking's log.
abbrev first_event : ℕ → BookingEvent
first_event id = record { booking_id = id; version = 2; event = booking_requested }

one_event : (id j v : ℕ) → has_event id v (first_event j ∷ []) ≡ ((j == id) && (2 == v))
unfolding has_event
one_event id j v = ground arith

one_history :
    (id j : ℕ) → history id (first_event j ∷ []) ≡ (if j == id then booking_requested ∷ [] else [])
unfolding history
one_history id j = refl

module _ {db db' : BookingDb} {b : Booking} {sent : List (OutboxRow BookingMessage)}
    (n : Created db b sent db') where
  pub find_created :
      (id : ℕ)
      → find booking_key id db'.bookings
        ≡ (if b.id == id then some b else find booking_key id db.bookings)
  find_created id = elim (Bool-cases (b.id == id)) [
    | inl mine ↦
        let e : b.id ≡ id = ==→eq b.id id mine in
        let absent = subst (λ (k : ℕ). find booking_key k db.bookings ≡ none) e n.new in
        ap (find booking_key id) n.bookings
        ∙ find-append_one booking_key id b db.bookings
        ∙ rw (mine, absent)
    | inr other ↦
        ap (find booking_key id) n.bookings
        ∙ find-append_one booking_key id b db.bookings
        ∙ rw other (ground arith)
  ]

  find_mine : (id : ℕ) → (b.id == id) ≡ true → find booking_key id db'.bookings ≡ some b
  find_mine id mine = ground (arith, find_created id)

  find_other :
      (id : ℕ)
      → (b.id == id) ≡ false
      → find booking_key id db'.bookings ≡ find booking_key id db.bookings
  find_other id other = ground (arith, find_created id)

  found_mine :
      (id : ℕ) (x : Booking)
      → (b.id == id) ≡ true
      → find booking_key id db'.bookings ≡ some x
      → b ≡ x
  found_mine id x mine found = cc (find_mine id mine, found)

  events_created :
      (id v : ℕ)
      → has_event id v db'.events ≡ (has_event id v db.events || ((b.id == id) && (2 == v)))
  events_created id v =
      ap (has_event id v) n.events
      ∙ has_event-append id v db.events (first_event b.id ∷ [])
      ∙ ap (λ (t : Bool). has_event id v db.events || t) (one_event id b.id v)

  created-log :
      ((id v : ℕ) → has_event id v db.events ≡ in_log (find booking_key id db.bookings) v)
      → (id v : ℕ) → has_event id v db'.events ≡ in_log (find booking_key id db'.bookings) v
  created-log h id v = elim (Bool-cases (b.id == id)) [
    | inl mine ↦
        let old : has_event id v db.events ≡ false =
          h id v
          ∙ ap (λ (k : ℕ). in_log (find booking_key k db.bookings) v) (sym (==→eq b.id id mine))
          ∙ ap (λ (o : Option Booking). in_log o v) n.new in
        events_created id v ∙ rw (old, mine, find_mine id mine, n.version) (ground arith)
    | inr other ↦ events_created id v ∙ rw (other, find_other id other) (ground (arith, h id v))
  ]

  created-replayed :
      ((id v : ℕ) → has_event id v db.events ≡ in_log (find booking_key id db.bookings) v)
      → (id : ℕ) (x : Booking)
      → ((x : Booking)
          → find booking_key id db.bookings ≡ some x
          → replay_status requested (history id db.events) ≡ x.status)
      → find booking_key id db'.bookings ≡ some x
      → replay_status requested (history id db'.events) ≡ x.status
  created-replayed log id x h found =
      let appended =
        ap (history id) n.events
        ∙ history-append id db.events (first_event b.id ∷ [])
        ∙ ap (λ (es : List DomainEvent). history id db.events ++ es) (one_history id b.id) in
      elim (Bool-cases (b.id == id)) [
        | inl mine ↦
            let blank = history-absent id db.events (λ v.
              log id v
              ∙ ap (λ (k : ℕ). in_log (find booking_key k db.bookings) v) (sym (==→eq b.id id mine))
              ∙ ap (λ (o : Option Booking). in_log o v) n.new) in
            let only : history id db'.events ≡ booking_requested ∷ [] =
              appended ∙ rw (blank, mine) in
            ap (replay_status requested) only
            ∙ sym n.status
            ∙ ap (λ (y : Booking). y.status) (found_mine id x mine found)
        | inr other ↦
            let same : history id db'.events ≡ history id db.events =
              appended ∙ rw (other, append-nil) in
            ap (replay_status requested) same ∙ h x (sym (find_other id other) ∙ found)
      ]

  -- Creating a booking keeps the invariant.
  pub created-IsConsistent : IsConsistent db → IsConsistent db'
  created-IsConsistent h = record {
    apart = subst Apart (sym n.bookings) (Apart-append b db.bookings n.apart h.apart);
    log = created-log h.log;
    versioned = λ id x found. elim (Bool-cases (b.id == id)) [
      | inl mine ↦
          subst (λ (y : Booking). 1 ≤ y.version) (found_mine id x mine found)
            (omega (arith, n.version))
      | inr other ↦ h.versioned id x (sym (find_other id other) ∙ found)
    ];
    replayed = λ id x found. created-replayed h.log id x (h.replayed id) found;
    equipped = λ id x found. elim (Bool-cases (b.id == id)) [
      | inl mine ↦
          subst (λ (y : Booking). (not (is_driven y.status) || is_some y.start_odometer) ≡ true)
            (found_mine id x mine found)
            (ap (λ (st : BookingStatus). not (is_driven st) || is_some b.start_odometer) n.status)
      | inr other ↦ h.equipped id x (sym (find_other id other) ∙ found)
    ];
  }
