-- ===== src/Booking/Invariant/Overlap.antt =====
-- No double booking: two rows of `bookings` that hold dates of one vehicle do not overlap.
use car_flow_mvp.Base.{
  ◌≡◌, refl, sym, ap, subst, ◌∙◌, ◌⊎◌, Bool, true, false, ◌||◌, some, List, [], ◌∷◌, ◌++◌, ◌==◌,
  arith, Bool-cases, inl, inr,
}
use car_flow_mvp.Base.Table.{find, replace}
use car_flow_mvp.Booking.Model.{Booking, excludes, holds_dates}
use car_flow_mvp.Booking.Repository.{booking_key, conflicts}
use car_flow_mvp.Booking.Invariant.{Apart}

pub excludes_sym : (a b : Booking) → excludes a b ≡ excludes b a
excludes_sym a b = ground arith

or_first : (a b : Bool) → (a || b) ≡ false → a ≡ false
or_first a b h = ground arith

or_second : (a b : Bool) → (a || b) ≡ false → b ≡ false
or_second a b h = ground arith

-- A row that lies where another lies, and holds its dates only if the other does.
pub record Within (after before : Booking) : Type 0 where
  pub id : after.id ≡ before.id
  pub vehicle : after.vehicle_id ≡ before.vehicle_id
  pub start : after.start_date ≡ before.start_date
  pub end : after.end_date ≡ before.end_date
  pub holds : holds_dates before.status ≡ true

excludes-Within :
    (row after before : Booking)
    → Within after before
    → excludes row before ≡ false
    → excludes row after ≡ false
excludes-Within row after before w h = ground arith

conflicts-Within :
    (after before : Booking) (rows : List Booking)
    → Within after before
    → conflicts before rows ≡ false
    → conflicts after rows ≡ false
unfolding conflicts
conflicts-Within after before [] w h = refl
conflicts-Within after before (row ∷ rows) w h =
    ground (arith, excludes-Within row after before w, conflicts-Within after before rows w)

-- The row that `replace` meets first is the one that `find` found, or both are further on.
hit_or_miss :
    (after before row : Booking) (rows : List Booking)
    → after.id ≡ before.id
    → find booking_key before.id (row ∷ rows) ≡ some before
    → ((row ≡ before) × (replace booking_key after (row ∷ rows) ≡ after ∷ rows))
      ⊎ ((find booking_key before.id rows ≡ some before)
          × (replace booking_key after (row ∷ rows) ≡ row ∷ replace booking_key after rows))
unfolding find replace
hit_or_miss after before row rows same found = elim (Bool-cases (row.id == before.id)) [
  | inl hit ↦ inl (ground arith, ground arith)
  | inr miss ↦ inr (ground arith, ground arith)
]

excludes-first :
    (b row after before : Booking)
    → Within after before
    → row ≡ before
    → excludes row b ≡ false
    → excludes after b ≡ false
excludes-first b row after before w here h = ground arith

conflicts_head :
    (b row after : Booking) (rows : List Booking)
    → (excludes row b ≡ false → excludes after b ≡ false)
    → conflicts b (row ∷ rows) ≡ false
    → conflicts b (after ∷ rows) ≡ false
unfolding conflicts
conflicts_head b row after rows f h = ground (arith, f)

conflicts_tail :
    (b row : Booking) (changed rows : List Booking)
    → conflicts b (row ∷ rows) ≡ false
    → (conflicts b rows ≡ false → conflicts b changed ≡ false)
    → conflicts b (row ∷ changed) ≡ false
unfolding conflicts
conflicts_tail b row changed rows h f = ground (arith, f)

conflicts-replace :
    (b after before : Booking) (rows : List Booking)
    → Within after before
    → find booking_key before.id rows ≡ some before
    → conflicts b rows ≡ false
    → conflicts b (replace booking_key after rows) ≡ false
unfolding conflicts find
conflicts-replace b after before [] w found h = cc
conflicts-replace b after before (row ∷ rows) w found h =
    elim (hit_or_miss after before row rows w.id found) [
      | inl (here, eq) ↦
          rw eq (conflicts_head b row after rows (excludes-first b row after before w here) h)
      | inr (further, eq) ↦ rw eq (
          conflicts_tail b row (replace booking_key after rows) rows h
            (conflicts-replace b after before rows w further))
    ]

conflicts-append :
    (b x : Booking) (rows : List Booking)
    → conflicts b rows ≡ false
    → excludes x b ≡ false
    → conflicts b (rows ++ x ∷ []) ≡ false
unfolding conflicts
conflicts-append b x [] h e = ground arith
conflicts-append b x (row ∷ rows) h e = ground (arith, conflicts-append b x rows)

-- Replacing a row by one within it keeps the rows apart.
pub Apart-replace :
    (after before : Booking) (rows : List Booking)
    → Within after before
    → find booking_key before.id rows ≡ some before
    → Apart rows
    → Apart (replace booking_key after rows)
unfolding find
Apart-replace after before [] w found h = cc
Apart-replace after before (row ∷ rows) w found h =
    elim (hit_or_miss after before row rows w.id found) [
      | inl (here, eq) ↦ subst Apart (sym eq) (
        conflicts-Within after before rows w
            (ap (λ (x : Booking). conflicts x rows) (sym here) ∙ h.0),
        h.1,
      )
      | inr (further, eq) ↦ subst Apart (sym eq) (
        conflicts-replace row after before rows w further h.0,
        Apart-replace after before rows w further h.1,
      )
    ]

-- A new row that conflicts with none keeps the rows apart.
pub Apart-append :
    (b : Booking) (rows : List Booking)
    → conflicts b rows ≡ false
    → Apart rows
    → Apart (rows ++ b ∷ [])
unfolding conflicts
Apart-append b [] free h = (refl, tt)
Apart-append b (row ∷ rows) free h = (
  conflicts-append row b rows h.0 (excludes_sym b row ∙ or_first _ _ free),
  Apart-append b rows (or_second _ _ free) h.1,
)
