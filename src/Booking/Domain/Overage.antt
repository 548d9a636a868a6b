-- ===== src/Booking/Domain/Overage.antt =====
-- The overage charge of services/booking/domain.py.
use car_flow_mvp.Base.{◌≡◌, ◌*◌, arith}
use car_flow_mvp.Base.Int.{ℤ, pos, pos_part, neg_part, ◌≤ℤ◌, ◌<ℤ◌, ◌-ℤ◌, ◌*ℤ◌, max_ℤ, -ℤ_parts}
use car_flow_mvp.Booking.Domain.Types.{BookingState}
use car_flow_mvp.Booking.Domain.{compute_overage_cents, rental_days}

-- The charge is fifty cents for each mile driven beyond the allowance of the whole rental, and
-- nothing where the car was driven no further than that; an odometer that went back counts as no
-- excess.
pub overage_is_excess :
    (start_odometer end_odometer limit days : ℤ)
    → compute_overage_cents start_odometer end_odometer limit days
      ≡ max_ℤ (end_odometer -ℤ start_odometer -ℤ limit *ℤ days) (pos 0) *ℤ pos 50
unfolding compute_overage_cents ◌-ℤ◌ ◌*ℤ◌
overage_is_excess s e l d = ground arith

-- The rate, with products shut.
fifty_parts :
    (a : ℤ)
    → (pos_part (a *ℤ pos 50) ≡ pos_part a * 50) × (neg_part (a *ℤ pos 50) ≡ neg_part a * 50)
unfolding ◌*ℤ◌
fifty_parts a = ground arith

-- No rental is charged a negative overage.
pub overage_nonneg :
    (start_odometer end_odometer limit days : ℤ)
    → pos 0 ≤ℤ compute_overage_cents start_odometer end_odometer limit days
unfolding compute_overage_cents
overage_nonneg s e l d = ground (arith, -ℤ_parts (e -ℤ s) (l *ℤ d), fifty_parts (e -ℤ s -ℤ l *ℤ d))

pub overage_mono :
    (start_odometer end_odometer further limit days : ℤ)
    → end_odometer ≤ℤ further
    → compute_overage_cents start_odometer end_odometer limit days
      ≤ℤ compute_overage_cents start_odometer further limit days
unfolding compute_overage_cents
overage_mono s e f l d h = ground (
  arith,
  -ℤ_parts e s,
  -ℤ_parts f s,
  -ℤ_parts (e -ℤ s) (l *ℤ d),
  fifty_parts (e -ℤ s -ℤ l *ℤ d),
  -ℤ_parts (f -ℤ s) (l *ℤ d),
  fifty_parts (f -ℤ s -ℤ l *ℤ d),
)

-- A booking lasts at least one day, whatever its dates.
pub rental_days_pos : (state : BookingState) → pos 0 <ℤ rental_days state
unfolding rental_days
rental_days_pos state = ground arith
