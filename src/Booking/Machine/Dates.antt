-- ===== src/Booking/Machine/Dates.antt =====
-- The promise of the constraint `ex_bookings_no_overlap`, for every database of the booking service.
use car_flow_mvp.Base.{
  ℕ, ◌<◌, ◌≡◌, ◌≢◌, sym, ◌∙◌, true, false, ◌⊎◌, inl, inr, some, List, [], ◌∷◌, ◌==◌, ==→eq,
  Bool-cases, arith,
}
use car_flow_mvp.Base.Table.{find}
use car_flow_mvp.Booking.Model.{Booking, BookingDb, excludes, holds_dates}
use car_flow_mvp.Booking.Repository.{booking_key, conflicts}
use car_flow_mvp.Booking.Invariant.{Apart}
use car_flow_mvp.Booking.Invariant.Overlap.{excludes_sym}
use car_flow_mvp.Booking.Machine.{Reach}
use car_flow_mvp.Booking.Machine.Safety.{Reach-IsConsistent}

excludes_found :
    (a b : Booking) (j : ℕ) (rows : List Booking)
    → conflicts a rows ≡ false
    → find booking_key j rows ≡ some b
    → excludes b a ≡ false
unfolding conflicts find
excludes_found a b j [] h found = cc
excludes_found a b j (row ∷ rows) h found = ground (arith, excludes_found a b j rows)

Apart-found :
    (a b : Booking) (i j : ℕ) (rows : List Booking)
    → Apart rows
    → i ≢ j
    → find booking_key i rows ≡ some a
    → find booking_key j rows ≡ some b
    → excludes a b ≡ false
unfolding find
Apart-found a b i j [] h ne fa fb = cc
Apart-found a b i j (row ∷ rows) h ne fa fb = elim (Bool-cases (row.id == i)) [
  | inl here ↦ elim (Bool-cases (row.id == j)) [
    | inl both ↦ absurd (ne (sym (==→eq row.id i here) ∙ ==→eq row.id j both))
    | inr later ↦ ground (arith, excludes_sym a b, excludes_found row b j rows h.0)
  ]
  | inr further ↦ elim (Bool-cases (row.id == j)) [
    | inl here ↦ ground (arith, excludes_found row a i rows h.0)
    | inr later ↦ ground (arith, Apart-found a b i j rows h.1 ne)
  ]
]

disjoint :
    (a b : Booking)
    → excludes a b ≡ false
    → a.vehicle_id ≡ b.vehicle_id
    → holds_dates a.status ≡ true
    → holds_dates b.status ≡ true
    → (a.end_date < b.start_date) ⊎ (b.end_date < a.start_date)
disjoint a b h v ha hb = ground arith

-- No double booking: in every database that the service can have, of two different bookings of one
-- vehicle that are neither cancelled nor rejected, one ends before the other starts.
pub no_double_booking :
    (i j : ℕ) (a b : Booking) {db : BookingDb}
    → Reach db
    → i ≢ j
    → find booking_key i db.bookings ≡ some a
    → find booking_key j db.bookings ≡ some b
    → a.vehicle_id ≡ b.vehicle_id
    → holds_dates a.status ≡ true
    → holds_dates b.status ≡ true
    → (a.end_date < b.start_date) ⊎ (b.end_date < a.start_date)
no_double_booking i j a b {db} r ne fa fb =
    disjoint a b (Apart-found a b i j db.bookings (Reach-IsConsistent r).apart ne fa fb)
