-- ===== src/Booking/Invariant/Kept.antt =====
-- The invariant is kept by the two ways in which the tables change.
use mathlib.Core.List.{append-nil}
use car_flow_mvp.Base.Result.{ok}
use car_flow_mvp.Base.{
  ℕ, ◌+◌, ◌≤◌, ◌≡◌, sym, ap, subst, ◌∙◌, true, false, ◌&&◌, ◌||◌, not, Option, some, List, ◌++◌,
  ◌==◌, ==→eq, ltb, leb, length, is_some, if◌then◌else◌, arith, Bool-cases, inl, inr,
}
use car_flow_mvp.Base.Table.{find, replace, find-replace}
use car_flow_mvp.Shared.Outbox.{OutboxRow}
use car_flow_mvp.Booking.Domain
use car_flow_mvp.Booking.Domain.{BookingStatus, requested, DomainEvent, Transition}
use car_flow_mvp.Booking.Domain.Lifecycle.{
  Command, accept, reject, confirm, cancel, handover, take_back, complete, note_failure, decide,
  decide-IsLawful, replay_status,
}
use car_flow_mvp.Booking.Model.{Booking, BookingEvent, BookingMessage, BookingDb}
use car_flow_mvp.Booking.Repository.{booking_key, state_of, has_event}
use car_flow_mvp.Booking.Service.{apply_transition}
use car_flow_mvp.Booking.Settle.{Settled, advance, logged, has_event-append}
use car_flow_mvp.Booking.Invariant.{IsConsistent, Apart, in_log, history, is_driven}
use car_flow_mvp.Booking.Invariant.Overlap.{Within, Apart-replace}
use car_flow_mvp.Booking.Invariant.Log.{
  has_event-logged, has_event-logged_other, history-append, history-logged, history-logged_other,
  replay_status-append,
}

-- A transition leaves alone what a booking is about.
advance-Within :
    (c : Command) (b : Booking) (t : Transition)
    → decide c (state_of b) ≡ ok t
    → Within (advance b t) b
unfolding apply_transition
advance-Within c b t h = ground (arith, decide-IsLawful c (state_of b) h)

found_replaced :
    (id : ℕ) (before after : Booking) (rows : List Booking)
    → after.id ≡ before.id
    → find booking_key before.id rows ≡ some before
    → find booking_key id (replace booking_key after rows)
      ≡ (if before.id == id then some after else find booking_key id rows)
found_replaced id before after rows same found = elim (Bool-cases (before.id == id)) [
  | inl mine ↦
      let e : before.id ≡ id = ==→eq before.id id mine in
      find-replace booking_key id after rows
      ∙ rw mine (ground (arith, subst (λ (k : ℕ). find booking_key k rows ≡ some before) e found))
  | inr other ↦ find-replace booking_key id after rows ∙ rw other (ground arith)
]

log_mine :
    (id v : ℕ) (before after : Booking) (events : List BookingEvent) (es : List DomainEvent)
    → before.id ≡ id
    → after.version ≡ before.version + length es
    → 1 ≤ before.version
    → has_event before.id v events ≡ (ltb 1 v && leb v before.version)
    → (has_event id v events || has_event id v (logged before.id before.version es))
      ≡ (ltb 1 v && leb v after.version)
log_mine id v before after events es same version versioned h =
    subst
      (λ (k : ℕ).
        (has_event k v events || has_event k v (logged before.id before.version es))
        ≡ (ltb 1 v && leb v after.version))
      same (rw (h, has_event-logged before.id before.version v es, version) (ground arith))

log_other :
    (id v : ℕ) (before : Booking) (events : List BookingEvent) (es : List DomainEvent)
    → (before.id == id) ≡ false
    → (has_event id v events || has_event id v (logged before.id before.version es))
      ≡ has_event id v events
log_other id v before events es other =
    rw (has_event-logged_other id before.id before.version v es other) (ground arith)

history_mine :
    (id : ℕ) (before : Booking) (events : List BookingEvent) (es : List DomainEvent)
    → before.id ≡ id
    → replay_status requested (history id (events ++ logged before.id before.version es))
      ≡ replay_status (replay_status requested (history before.id events)) es
history_mine id before events es same =
    subst
      (λ (k : ℕ).
        replay_status requested (history k (events ++ logged before.id before.version es))
        ≡ replay_status (replay_status requested (history before.id events)) es)
      same
      (rw
        (
          history-append before.id events (logged before.id before.version es),
          history-logged before.id before.version es,
        )
        (replay_status-append requested (history before.id events) es))

history_other :
    (id : ℕ) (before : Booking) (events : List BookingEvent) (es : List DomainEvent)
    → (before.id == id) ≡ false
    → replay_status requested (history id (events ++ logged before.id before.version es))
      ≡ replay_status requested (history id events)
history_other id before events es other =
    rw (history-append, history-logged_other id before.id before.version es other, append-nil)

-- A car that is being driven has a reading to compare the return with.
equipped_advance :
    (c : Command) (b : Booking) (t : Transition)
    → decide c (state_of b) ≡ ok t
    → (not (is_driven b.status) || is_some b.start_odometer) ≡ true
    → (not (is_driven (advance b t).status) || is_some (advance b t).start_odometer) ≡ true
unfolding apply_transition decide Domain.accept_request Domain.reject_request
    Domain.confirm_after_payment_authorized Domain.cancel_after_payment_authorization_failed
    Domain.complete_after_payment_captured Domain.note_payment_capture_failed Domain.record_handover
    Domain.record_return
equipped_advance accept b t h q = ground arith
equipped_advance reject b t h q = ground arith
equipped_advance confirm b t h q = ground arith
equipped_advance cancel b t h q = ground arith
equipped_advance (handover o f p) b t h q = ground arith
equipped_advance (take_back o f p) b t h q = ground arith
equipped_advance complete b t h q = ground arith
equipped_advance note_failure b t h q = ground arith

module _ {c : Command} {db db' : BookingDb} {before after : Booking}
    {sent : List (OutboxRow BookingMessage)} (s : Settled c db before after sent db') where
  settled-Within : Within after before
  settled-Within = rw s.moved (advance-Within c before s.transition s.allowed)

  pub settled-Apart : Apart db.bookings → Apart db'.bookings
  settled-Apart h =
      subst Apart (sym s.bookings) (Apart-replace after before db.bookings settled-Within s.found h)

  pub find_settled :
      (id : ℕ)
      → find booking_key id db'.bookings
        ≡ (if before.id == id then some after else find booking_key id db.bookings)
  find_settled id =
      ap (find booking_key id) s.bookings
      ∙ found_replaced id before after db.bookings settled-Within.id s.found

  find_mine : (id : ℕ) → (before.id == id) ≡ true → find booking_key id db'.bookings ≡ some after
  find_mine id mine = ground (arith, find_settled id)

  find_other :
      (id : ℕ)
      → (before.id == id) ≡ false
      → find booking_key id db'.bookings ≡ find booking_key id db.bookings
  find_other id other = ground (arith, find_settled id)

  found_mine :
      (id : ℕ) (b : Booking)
      → (before.id == id) ≡ true
      → find booking_key id db'.bookings ≡ some b
      → after ≡ b
  found_mine id b mine found = cc (find_mine id mine, found)

  same_version : after.version ≡ before.version + length s.transition.events
  same_version = ap (λ (x : Booking). x.version) s.moved

  pub settled-log :
      ((id v : ℕ) → has_event id v db.events ≡ in_log (find booking_key id db.bookings) v)
      → 1 ≤ before.version
      → (id v : ℕ) → has_event id v db'.events ≡ in_log (find booking_key id db'.bookings) v
  settled-log h versioned id v =
      let es = s.transition.events in
      let bv = before.version in
      ap (has_event id v) s.events
      ∙ has_event-append id v db.events (logged before.id bv es)
      ∙ elim (Bool-cases (before.id == id)) [
        | inl mine ↦
            log_mine id v before after db.events es (==→eq before.id id mine) same_version versioned
              (h before.id v ∙ ap (λ (o : Option Booking). in_log o v) s.found)
            ∙ ap (λ (o : Option Booking). in_log o v) (sym (find_mine id mine))
        | inr other ↦
            log_other id v before db.events es other
            ∙ h id v
            ∙ ap (λ (o : Option Booking). in_log o v) (sym (find_other id other))
      ]

  pub settled-replayed :
      (replay_status requested (history before.id db.events) ≡ before.status)
      → (id : ℕ) (b : Booking)
      → ((b : Booking)
          → find booking_key id db.bookings ≡ some b
          → replay_status requested (history id db.events) ≡ b.status)
      → find booking_key id db'.bookings ≡ some b
      → replay_status requested (history id db'.events) ≡ b.status
  settled-replayed mine_before id b h found =
      let es = s.transition.events in
      let lawful = decide-IsLawful c (state_of before) s.allowed in
      ap (λ (evs : List BookingEvent). replay_status requested (history id evs)) s.events
      ∙ elim (Bool-cases (before.id == id)) [
        | inl mine ↦
            history_mine id before db.events es (==→eq before.id id mine)
            ∙ ap (λ (st : BookingStatus). replay_status st es) mine_before
            ∙ lawful.logged
            ∙ sym (ap (λ (x : Booking). x.status) s.moved)
            ∙ ap (λ (x : Booking). x.status) (found_mine id b mine found)
        | inr other ↦
            history_other id before db.events es other ∙ h b (sym (find_other id other) ∙ found)
      ]

  -- An operation on a stored booking keeps the invariant.
  pub settled-IsConsistent : IsConsistent db → IsConsistent db'
  settled-IsConsistent h = record {
    apart = settled-Apart h.apart;
    log = settled-log h.log (h.versioned before.id before s.found);
    versioned = λ id b found. elim (Bool-cases (before.id == id)) [
      | inl mine ↦
          subst (λ (x : Booking). 1 ≤ x.version) (found_mine id b mine found)
            (omega (arith, same_version, h.versioned before.id before s.found))
      | inr other ↦ h.versioned id b (sym (find_other id other) ∙ found)
    ];
    replayed = λ id b found.
        settled-replayed (h.replayed before.id before s.found) id b (h.replayed id) found;
    equipped = λ id b found. elim (Bool-cases (before.id == id)) [
      | inl mine ↦
          ap (λ (x : Booking). not (is_driven x.status) || is_some x.start_odometer)
            (sym (found_mine id b mine found) ∙ s.moved)
          ∙ equipped_advance c before s.transition s.allowed (h.equipped before.id before s.found)
      | inr other ↦ h.equipped id b (sym (find_other id other) ∙ found)
    ];
  }
