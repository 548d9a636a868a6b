-- ===== src/Booking/Machine/History.antt =====
-- The event log of the booking service: the read model follows it, and a writer with an old copy of a
-- row is refused by `uq_booking_events_booking_version`.
use car_flow_mvp.Base.{
  ℕ, ◌+◌, ◌≤◌, ◌<◌, ◌≡◌, ◌≢◌, sym, ap, ◌∙◌, true, ◌||◌, ◌&&◌, not, is_some, Option, some, String,
  List, ◌∷◌, ltb, leb, arith,
}
use car_flow_mvp.Base.Int.{ℤ}
use car_flow_mvp.Base.Result.{err}
use car_flow_mvp.Base.Table.{find}
use car_flow_mvp.Booking.Domain.{
  BookingStatus, requested, DomainEvent, DomainError, BookingState, start_odometer_missing,
}
use car_flow_mvp.Booking.Domain
use car_flow_mvp.Booking.Domain.Lifecycle.{replay_status}
use car_flow_mvp.Booking.Model.{Booking, BookingDb}
use car_flow_mvp.Booking.Repository.{
  booking_key, state_of, has_event, insert_event, insert_events, append_events,
  concurrent_booking_update,
}
use car_flow_mvp.Booking.Invariant.{history, in_log, is_driven}
use car_flow_mvp.Booking.Machine.{Reach}
use car_flow_mvp.Booking.Machine.Safety.{Reach-IsConsistent}

-- In every database that the service can have, the status of a booking's row is the one that the
-- booking's events, replayed from the first, lead to.
pub status_is_replayed :
    (id : ℕ) (b : Booking) {db : BookingDb}
    → Reach db
    → find booking_key id db.bookings ≡ some b
    → b.status ≡ replay_status requested (history id db.events)
status_is_replayed id b r found = sym ((Reach-IsConsistent r).replayed id b found)

append_taken :
    (b : Booking) (e : DomainEvent) (es : List DomainEvent) (st : BookingStatus) (db : BookingDb)
    → has_event b.id (b.version + 1) db.events ≡ true
    → append_events b (e ∷ es) st db ≡ (err concurrent_booking_update, db)
unfolding append_events insert_events insert_event
append_taken b e es st db h = rw (h, insert_event, insert_events)

within_log : (old new : ℕ) → 1 ≤ old → old < new → (ltb 1 (old + 1) && leb (old + 1) new) ≡ true
within_log old new positive older = ground arith

-- Two writers cannot both advance a booking: in every database that the service can have, a writer
-- that holds a copy of the row from before another's change is refused when it appends its first
-- event, and nothing is written.
pub stale_write_refused :
    (old b : Booking) (e : DomainEvent) (es : List DomainEvent) (st : BookingStatus)
    {db : BookingDb}
    → Reach db
    → find booking_key old.id db.bookings ≡ some b
    → 1 ≤ old.version
    → old.version < b.version
    → append_events old (e ∷ es) st db ≡ (err concurrent_booking_update, db)
stale_write_refused old b e es st {db} r found positive older = append_taken old e es st db (
    (Reach-IsConsistent r).log old.id (old.version + 1)
    ∙ ap (λ (o : Option Booking). in_log o (old.version + 1)) found
    ∙ within_log old.version b.version positive older)

not_missing :
    (s : BookingState) (odometer fuel : ℤ) (photo : String)
    → (not (is_driven s.status) || is_some s.start_odometer) ≡ true
    → Domain.record_return s odometer fuel photo ≢ err start_odometer_missing
unfolding Domain.record_return
not_missing s odometer fuel photo h e = ground arith

-- The subtraction of the two odometer readings never meets a missing one: in every database that the
-- service can have, the return of a stored booking is decided without a TypeError.
pub return_has_reading :
    (id : ℕ) (b : Booking) (odometer fuel : ℤ) (photo : String) {db : BookingDb}
    → Reach db
    → find booking_key id db.bookings ≡ some b
    → Domain.record_return (state_of b) odometer fuel photo ≢ err start_odometer_missing
return_has_reading id b odometer fuel photo r found =
    not_missing (state_of b) odometer fuel photo ((Reach-IsConsistent r).equipped id b found)
