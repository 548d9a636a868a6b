-- ===== src/Booking/Repository.antt =====
-- services/booking/repository.py: reading and writing the tables `bookings` and `booking_events`.
-- A `Booking` object is read from its row, changed, and written back when the session is flushed.
use car_flow_mvp.Base.{
  ℕ, ◌+◌, Bool, false, ◌&&◌, ◌||◌, Option, none, List, [], ◌∷◌, ◌++◌, ◌==◌, ⊤, ltb, length,
  if◌then◌else◌, is_some,
}
use car_flow_mvp.Base.Int.{ℤ, pos}
use car_flow_mvp.Base.Result.{ok, err}
use car_flow_mvp.Shared.Paging.{sent_page}
use car_flow_mvp.Base.Exec.{Exec, or_raise, pure, gets, modify, ◌>>◌}
use car_flow_mvp.Base.Table.{find, replace}
use car_flow_mvp.Booking.Domain.{
  BookingMode, BookingStatus, requested, BookingState, DomainEvent, DomainError,
}
use car_flow_mvp.Booking.Model.{Booking, BookingEvent, BookingDb, excludes}

-- The exceptions of the service.
pub data BookingError : Type 0 where
  booking_not_found not_booking_party vehicle_not_bookable : BookingError
  overlapping_booking concurrent_booking_update : BookingError
  upstream_error invalid_date_range : BookingError
  -- An error of the database that nothing catches.
  database_error : BookingError
  domain_error : DomainError → BookingError

abbrev pub Action : Type 0 → Type 0
Action A = Exec BookingDb BookingError A

abbrev pub booking_key : Booking → ℕ
booking_key b = b.id

-- `_to_state`
abbrev pub state_of : Booking → BookingState
state_of row = record {
  id = row.id;
  vehicle_id = row.vehicle_id;
  host_id = row.host_id;
  renter_id = row.renter_id;
  start_date = row.start_date;
  end_date = row.end_date;
  daily_price_cents = row.daily_price_cents;
  daily_mileage_limit = row.daily_mileage_limit;
  booking_mode = row.booking_mode;
  status = row.status;
  version = row.version;
  start_odometer = row.start_odometer;
  end_odometer = row.end_odometer;
  start_fuel_percent = row.start_fuel_percent;
  end_fuel_percent = row.end_fuel_percent;
  start_photo_url = row.start_photo_url;
  end_photo_url = row.end_photo_url;
  overage_cents = row.overage_cents;
}

unfoldable pub get_by_id : ℕ → Action (Option Booking)
get_by_id booking_id = gets (λ db. find booking_key booking_id db.bookings)

-- Whether a row of the table conflicts with a new one under the exclusion constraint.
unfoldable pub conflicts : Booking → List Booking → Bool
conflicts b [] = false
conflicts b (row ∷ rows) = excludes row b || conflicts b rows

-- The INSERT of a new row: `daterange` refuses a range that ends before it starts (a DataError), and
-- the primary key and the exclusion constraint refuse with an IntegrityError.
unfoldable pub insert_booking : Booking → Action ⊤
insert_booking b db =
    if ltb b.end_date b.start_date
    then (err invalid_date_range, db)
    else if is_some (find booking_key b.id db.bookings) || conflicts b db.bookings
    then (err overlapping_booking, db)
    else (ok tt, record db { bookings = db.bookings ++ b ∷ [] })

-- The object that `create_requested` adds to the session; `booking_id` is the value that the call of
-- `uuid4` returns.
abbrev pub new_booking : ℕ → ℕ → ℕ → ℕ → ℕ → ℕ → ℤ → ℤ → BookingMode → Booking
new_booking booking_id vehicle_id host_id renter_id start_date end_date price limit mode = record {
  id = booking_id;
  vehicle_id = vehicle_id;
  host_id = host_id;
  renter_id = renter_id;
  start_date = start_date;
  end_date = end_date;
  daily_price_cents = price;
  daily_mileage_limit = limit;
  booking_mode = mode;
  status = requested;
  version = 1;
  start_odometer = none;
  end_odometer = none;
  start_fuel_percent = none;
  end_fuel_percent = none;
  start_photo_url = none;
  end_photo_url = none;
  overage_cents = pos 0;
}

unfoldable pub create_requested : ℕ → ℕ → ℕ → ℕ → ℕ → ℕ → ℤ → ℤ → BookingMode → Action Booking
create_requested booking_id vehicle_id host_id renter_id start_date end_date price limit mode =
    let booking : Booking =
      new_booking booking_id vehicle_id host_id renter_id start_date end_date price limit mode in
    do insert_booking booking; pure booking

-- The unique constraint `uq_booking_events_booking_version`, on a booking and a version.
unfoldable pub has_event : ℕ → ℕ → List BookingEvent → Bool
has_event booking_id version [] = false
has_event booking_id version (e ∷ events) =
    ((e.booking_id == booking_id) && (e.version == version)) || has_event booking_id version events

-- One INSERT into the log; a version that is taken is refused.
unfoldable pub insert_event : ℕ → ℕ → DomainEvent → Action ⊤
insert_event booking_id version event db =
    if has_event booking_id version db.events then (err concurrent_booking_update, db) else (
      ok tt,
      record db {
        events =
            db.events ++ record { booking_id = booking_id; version = version; event = event } ∷ [];
      },
    )

-- The loop of `append_events`: the events get the versions after `version`, in order.
unfoldable pub insert_events : ℕ → ℕ → List DomainEvent → Action ⊤
insert_events booking_id version [] = pure tt
insert_events booking_id version (event ∷ events) = do
  insert_event booking_id (version + 1) event
  insert_events booking_id (version + 1) events

unfoldable pub append_events : Booking → List DomainEvent → BookingStatus → Action Booking
append_events booking events next_status = do
  insert_events booking.id booking.version events
  pure (record booking { version = booking.version + length events; status = next_status })

-- The flush writes the changed object to its row.
unfoldable pub save : Booking → Action ⊤
save booking = modify (λ db. record db { bookings = replace booking_key booking db.bookings })

-- `can_send` says which numbers the database's driver can send as LIMIT and OFFSET.
unfoldable pub list_all : (can_send : ℤ → Bool) → (limit offset : ℤ) → Action (List Booking)
list_all can_send limit offset db =
    or_raise database_error (sent_page can_send limit offset db.bookings) db
