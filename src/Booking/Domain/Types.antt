-- ===== src/Booking/Domain/Types.antt =====
-- The data of services/booking/domain.py and of the events in services/booking/models.py.
-- The texts `status` and `booking_mode` are read as the values that the tables' CHECK constraints
-- admit; a domain event is its type together with its payload.
use car_flow_mvp.Base.{ℕ, Bool, Option, String, List, ◌==◌}
use car_flow_mvp.Base.Int.{ℤ}

pub data BookingMode : Type 0 where
  instant request : BookingMode

pub data BookingStatus : Type 0 where
  requested confirmed active completed cancelled rejected : BookingStatus

abbrev pub mode_code : BookingMode → ℕ
mode_code instant = 0
mode_code request = 1

abbrev pub status_code : BookingStatus → ℕ
status_code requested = 0
status_code confirmed = 1
status_code active = 2
status_code completed = 3
status_code cancelled = 4
status_code rejected = 5

-- The texts' `==`.
abbrev pub same_mode : BookingMode → BookingMode → Bool
same_mode a b = mode_code a == mode_code b

abbrev pub same_status : BookingStatus → BookingStatus → Bool
same_status a b = status_code a == status_code b

pub record BookingState : Type 0 where
  pub id : ℕ
  pub vehicle_id : ℕ
  pub host_id : ℕ
  pub renter_id : ℕ
  pub start_date : ℕ
  pub end_date : ℕ
  pub daily_price_cents : ℤ
  pub daily_mileage_limit : ℤ
  pub booking_mode : BookingMode
  pub status : BookingStatus
  pub version : ℕ
  pub start_odometer : Option ℤ
  pub end_odometer : Option ℤ
  pub start_fuel_percent : Option ℤ
  pub end_fuel_percent : Option ℤ
  pub start_photo_url : Option String
  pub end_photo_url : Option String
  pub overage_cents : ℤ

pub data DomainEvent : Type 0 where
  booking_requested booking_request_accepted booking_rejected : DomainEvent
  payment_authorized booking_confirmed : DomainEvent
  payment_authorization_failed booking_cancelled : DomainEvent
  booking_handover_recorded : ℤ → ℤ → String → DomainEvent
  booking_return_recorded : ℤ → ℤ → String → ℤ → DomainEvent
  payment_captured booking_completed payment_capture_failed : DomainEvent

pub record Transition : Type 0 where
  pub events : List DomainEvent
  pub next_status : BookingStatus

-- InvalidBookingTransitionError with what its message shows, and the TypeError of an arithmetic
-- operation on None.
pub data DomainError : Type 0 where
  not_request_mode : DomainError
  unexpected_status : BookingStatus → BookingStatus → DomainError
  start_odometer_missing : DomainError
