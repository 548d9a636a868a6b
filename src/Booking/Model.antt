-- ===== src/Booking/Model.antt =====
-- services/booking/models.py and the tables of services/booking/migrations/versions/0001_initial.py.
use car_flow_mvp.Base.{ℕ, Bool, true, false, ◌&&◌, Option, String, List, ◌==◌, leb, refl}
use car_flow_mvp.Base.Int.{ℤ}
use car_flow_mvp.Shared.Outbox.{OutboxRow}
use car_flow_mvp.Shared.Consumer.{InboxTable}
use car_flow_mvp.Shared.Idempotency.{IdempotencyRow, KeyTable}
use car_flow_mvp.Booking.Domain.{BookingMode, BookingStatus, cancelled, rejected, DomainEvent}

-- A row of `bookings`, the read model. The timestamps are not kept: rows stand in the order in
-- which they were created.
pub record Booking : Type 0 where
  pub id : ℕ
  pub vehicle_id : ℕ
  pub host_id : ℕ
  pub renter_id : ℕ
  pub start_date : ℕ
  pub end_date : ℕ
  pub daily_price_cents : ℤ
  pub daily_mileage_limit : ℤ
  pub booking_mode : BookingMode
  pub status : BookingStatus
  pub version : ℕ
  pub start_odometer : Option ℤ
  pub end_odometer : Option ℤ
  pub start_fuel_percent : Option ℤ
  pub end_fuel_percent : Option ℤ
  pub start_photo_url : Option String
  pub end_photo_url : Option String
  pub overage_cents : ℤ

-- A row of `booking_events`, the append-only log.
pub record BookingEvent : Type 0 where
  pub booking_id : ℕ
  pub version : ℕ
  pub event : DomainEvent

-- What `_emit_domain_event` puts in a message.
pub record LifecycleData : Type 0 where
  pub booking_id : ℕ
  pub renter_id : ℕ
  pub host_id : ℕ
  pub status : BookingStatus

-- The messages on `booking.payment.commands`: `event_type` together with `data`.
pub data BookingMessage : Type 0 where
  authorize_payment_requested : (booking_id renter_id : ℕ) (amount_cents : ℤ) → BookingMessage
  capture_payment_requested :
      (booking_id host_id : ℕ) (hold_amount_cents overage_cents : ℤ) → BookingMessage
  rejected_message confirmed_message cancelled_message : LifecycleData → BookingMessage
  completed_message capture_failed_message : LifecycleData → BookingMessage

-- The body that the routes answer with, before it is printed as JSON.
pub record BookingResponse : Type 0 where
  pub id : ℕ
  pub vehicle_id : ℕ
  pub host_id : ℕ
  pub renter_id : ℕ
  pub start_date : ℕ
  pub end_date : ℕ
  pub daily_price_cents : ℤ
  pub daily_mileage_limit : ℤ
  pub booking_mode : BookingMode
  pub status : BookingStatus
  pub start_odometer : Option ℤ
  pub end_odometer : Option ℤ
  pub start_fuel_percent : Option ℤ
  pub end_fuel_percent : Option ℤ
  pub start_photo_url : Option String
  pub end_photo_url : Option String
  pub overage_cents : ℤ

-- The database of the booking service.
pub record BookingDb : Type 0 where
  pub bookings : List Booking
  pub events : List BookingEvent
  pub outbox : List (OutboxRow BookingMessage)
  pub inbox : List ℕ
  pub keys : List (IdempotencyRow BookingResponse)

abbrev pub inbox_table : InboxTable BookingDb
inbox_table = record {
  inbox = λ db. db.inbox;
  with_inbox = λ ids db. record db { inbox = ids };
  inbox-with_inbox = λ ids db. refl;
}

abbrev pub key_table : KeyTable BookingDb BookingResponse
key_table = record {
  keys = λ db. db.keys;
  with_keys = λ rows db. record db { keys = rows };
  keys-with_keys = λ rows db. refl;
}

-- `status NOT IN ('cancelled', 'rejected')`
abbrev pub holds_dates : BookingStatus → Bool
holds_dates cancelled = false
holds_dates rejected = false
holds_dates _ = true

-- `daterange(a, b, '[]') && daterange(c, d, '[]')`. A range that ends before it starts is refused by
-- `daterange` itself, so both are taken to be in order.
abbrev pub ranges_overlap : ℕ → ℕ → ℕ → ℕ → Bool
ranges_overlap a b c d = leb a d && leb c b

-- The exclusion constraint `ex_bookings_no_overlap`, between two rows.
abbrev pub excludes : Booking → Booking → Bool
excludes a b =
    (a.vehicle_id == b.vehicle_id)
    && ranges_overlap a.start_date a.end_date b.start_date b.end_date
    && holds_dates a.status
    && holds_dates b.status
