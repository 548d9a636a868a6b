-- ===== src/Booking/Invariant.antt =====
-- The invariant of the booking service's tables, over `Booking` and `BookingEvent` of
-- services/booking/models.py.
pub mod Overlap
pub mod Log
pub mod Kept
pub mod Begun
use car_flow_mvp.Base.{
  ℕ, ◌+◌, ◌≤◌, ◌≡◌, refl, Bool, true, false, ◌&&◌, ◌||◌, not, Option, none, some, List, [], ◌∷◌,
  ◌++◌, ◌==◌, ltb, leb, length, is_some, if◌then◌else◌, ⊤,
}
use car_flow_mvp.Base.Table.{find}
use car_flow_mvp.Booking.Domain.{BookingStatus, requested, active, completed, DomainEvent}
use car_flow_mvp.Booking.Domain.Lifecycle.{replay_status}
use car_flow_mvp.Booking.Model.{Booking, BookingEvent, BookingDb}
use car_flow_mvp.Booking.Repository.{booking_key, conflicts, has_event}

-- No two rows exclude one another.
abbrev pub Apart : List Booking → Type 0
Apart [] = ⊤
Apart (b ∷ rows) = (conflicts b rows ≡ false) × Apart rows

-- The versions that the log must hold for a booking: from 2, given by its first event, to the row's.
abbrev pub in_log : Option Booking → ℕ → Bool
in_log none v = false
in_log (some b) v = ltb 1 v && leb v b.version

-- The events of one booking, oldest first.
unfoldable pub history : ℕ → List BookingEvent → List DomainEvent
history id [] = []
history id (e ∷ events) =
    if e.booking_id == id then e.event ∷ history id events else history id events

-- The car has been handed over.
abbrev pub is_driven : BookingStatus → Bool
is_driven active = true
is_driven completed = true
is_driven _ = false

pub record IsConsistent (db : BookingDb) : Type 0 where
  pub apart : Apart db.bookings
  pub log : (id v : ℕ) → has_event id v db.events ≡ in_log (find booking_key id db.bookings) v
  pub versioned : (id : ℕ) (b : Booking) → find booking_key id db.bookings ≡ some b → 1 ≤ b.version
  pub replayed :
      (id : ℕ) (b : Booking)
      → find booking_key id db.bookings ≡ some b
      → replay_status requested (history id db.events) ≡ b.status
  pub equipped :
      (id : ℕ) (b : Booking)
      → find booking_key id db.bookings ≡ some b
      → (not (is_driven b.status) || is_some b.start_odometer) ≡ true
