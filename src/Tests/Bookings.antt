-- ===== src/Tests/Bookings.antt =====
-- Concrete runs of the booking service.
use car_flow_mvp.Base.{ℕ, ◌≤◌, ◌<◌, ◌≡◌, ◌≢◌, refl, ◌⊎◌, some, [], ◌∷◌, arith}
use car_flow_mvp.Base.Int.{pos, ◌≤ℤ◌, ◌-ℤ◌, ◌*ℤ◌, max_ℤ}
use car_flow_mvp.Base.Result.{ok, err}
use car_flow_mvp.Base.Table.{find, replace}
use car_flow_mvp.Booking.Domain.{
  instant, requested, active, confirmed, booking_cancelled, booking_handover_recorded,
  compute_overage_cents, start_odometer_missing,
}
use car_flow_mvp.Booking.Domain
use car_flow_mvp.Booking.Domain.Overage.{overage_is_excess, overage_nonneg, overage_mono}
use car_flow_mvp.Booking.Domain.Lifecycle.{
  replay_status, decide, confirm, IsLawful, decide-IsLawful,
}
use car_flow_mvp.Booking.Model.{Booking, BookingDb}
use car_flow_mvp.Booking.ListingClient.{approved, ListingResponse, get_vehicle}
use car_flow_mvp.Booking.Repository.{
  booking_key, get_by_id, conflicts, insert_booking, new_booking, create_requested, has_event,
  insert_event, insert_events, append_events, save, state_of, concurrent_booking_update,
}
use car_flow_mvp.Booking.Service
use car_flow_mvp.Booking.Service.{
  apply_transition, hold_amount, emit_authorize_payment_requested, emit_domain_event,
  request_booking, apply_payment_authorized,
}
use car_flow_mvp.Booking.Invariant.{IsConsistent, history}
use car_flow_mvp.Booking.Invariant.Begun.{empty_db}
use car_flow_mvp.Booking.Machine.{
  Operation, request, authorized, handover, run, Reach, start, commit,
}
use car_flow_mvp.Booking.Machine.Safety.{Reach-IsConsistent}
use car_flow_mvp.Booking.Machine.Dates.{no_double_booking}
use car_flow_mvp.Booking.Machine.History.{
  status_is_replayed, stale_write_refused, return_has_reading,
}

abbrev listed : ListingResponse
listed = record {
  status_code = 200;
  body = record {
    id = 7;
    host_id = 1;
    daily_price_cents = pos 5000;
    daily_mileage_limit = pos 200;
    booking_mode = instant;
    approval_status = approved;
  };
}

abbrev ask_first : Operation
ask_first = request listed 10 100 2 7 20 23

abbrev ask_second : Operation
ask_second = request listed 11 101 3 7 24 25

abbrev first_opened : Booking
first_opened = record (new_booking 10 7 1 2 20 23 (pos 5000) (pos 200) instant) { version = 2 }

abbrev second_opened : Booking
second_opened = record (new_booking 11 7 1 3 24 25 (pos 5000) (pos 200) instant) { version = 2 }

abbrev first_confirmed : Booking
first_confirmed = record first_opened { version = 4; status = confirmed }

abbrev first_active : Booking
first_active = record first_opened {
  version = 5;
  status = active;
  start_odometer = some (pos 1000);
  start_fuel_percent = some (pos 90);
  start_photo_url = some "photo";
}

abbrev after : Operation → BookingDb → BookingDb
after op db = (run op db).1

abbrev one_asked : BookingDb
one_asked = after ask_first empty_db

abbrev two_asked : BookingDb
two_asked = after ask_second one_asked

abbrev one_confirmed : BookingDb
one_confirmed = after (authorized 102 10) two_asked

abbrev one_handed_over : BookingDb
one_handed_over = after (handover 10 1 (pos 1000) (pos 90) "photo") one_confirmed

ask_first_returns : run ask_first empty_db ≡ (ok first_opened, one_asked)
unfolding run request_booking get_vehicle create_requested insert_booking conflicts find
    append_events insert_events insert_event has_event emit_authorize_payment_requested hold_amount
    ◌*ℤ◌ save replace
ask_first_returns = refl

ask_second_returns : run ask_second one_asked ≡ (ok second_opened, two_asked)
unfolding run request_booking get_vehicle create_requested insert_booking conflicts find
    append_events insert_events insert_event has_event emit_authorize_payment_requested hold_amount
    ◌*ℤ◌ save replace
ask_second_returns = refl

authorized_returns : run (authorized 102 10) two_asked ≡ (ok first_confirmed, one_confirmed)
unfolding run request_booking get_vehicle create_requested insert_booking conflicts find
    append_events insert_events insert_event has_event emit_authorize_payment_requested hold_amount
    ◌*ℤ◌ save replace Service.apply_payment_authorized get_by_id
    Domain.confirm_after_payment_authorized Domain.require_status emit_domain_event
authorized_returns = refl

handover_returns :
    run (handover 10 1 (pos 1000) (pos 90) "photo") one_confirmed
    ≡ (ok first_active, one_handed_over)
unfolding run request_booking get_vehicle create_requested insert_booking conflicts find
    append_events insert_events insert_event has_event emit_authorize_payment_requested hold_amount
    ◌*ℤ◌ save replace Service.apply_payment_authorized get_by_id
    Domain.confirm_after_payment_authorized Domain.require_status emit_domain_event
    Service.record_handover Domain.record_handover apply_transition
handover_returns = refl

one_asked-Reach : Reach one_asked
one_asked-Reach = commit ask_first first_opened start ask_first_returns

two_asked-Reach : Reach two_asked
two_asked-Reach = commit ask_second second_opened one_asked-Reach ask_second_returns

one_confirmed-Reach : Reach one_confirmed
one_confirmed-Reach = commit (authorized 102 10) first_confirmed two_asked-Reach authorized_returns

one_handed_over-Reach : Reach one_handed_over
one_handed_over-Reach =
    commit (handover 10 1 (pos 1000) (pos 90) "photo") first_active one_confirmed-Reach
      handover_returns

first_found : find booking_key 10 one_confirmed.bookings ≡ some first_confirmed
unfolding run request_booking get_vehicle create_requested insert_booking conflicts find
    append_events insert_events insert_event has_event emit_authorize_payment_requested hold_amount
    ◌*ℤ◌ save replace Service.apply_payment_authorized get_by_id
    Domain.confirm_after_payment_authorized Domain.require_status emit_domain_event
first_found = refl

second_found : find booking_key 11 one_confirmed.bookings ≡ some second_opened
unfolding run request_booking get_vehicle create_requested insert_booking conflicts find
    append_events insert_events insert_event has_event emit_authorize_payment_requested hold_amount
    ◌*ℤ◌ save replace Service.apply_payment_authorized get_by_id
    Domain.confirm_after_payment_authorized Domain.require_status emit_domain_event
second_found = refl

active_found : find booking_key 10 one_handed_over.bookings ≡ some first_active
unfolding run request_booking get_vehicle create_requested insert_booking conflicts find
    append_events insert_events insert_event has_event emit_authorize_payment_requested hold_amount
    ◌*ℤ◌ save replace Service.apply_payment_authorized get_by_id
    Domain.confirm_after_payment_authorized Domain.require_status emit_domain_event
    Service.record_handover Domain.record_handover apply_transition
active_found = refl

not_same : ◌≢◌ {A = ℕ} 10 11
not_same e = omega arith

no_double_booking_example :
    (first_confirmed.end_date < second_opened.start_date)
    ⊎ (second_opened.end_date < first_confirmed.start_date)
no_double_booking_example =
    no_double_booking 10 11 first_confirmed second_opened one_confirmed-Reach not_same first_found
      second_found refl refl refl

Reach-IsConsistent_example : IsConsistent one_handed_over
Reach-IsConsistent_example = Reach-IsConsistent one_handed_over-Reach

status_is_replayed_example : active ≡ replay_status requested (history 10 one_handed_over.events)
status_is_replayed_example = status_is_replayed 10 first_active one_handed_over-Reach active_found

one_before : 1 ≤ 2
one_before = omega arith

two_before : 2 < 4
two_before = omega arith

-- A writer that read the first booking before its payment was authorized.
stale_write_refused_example :
    append_events first_opened (booking_cancelled ∷ []) requested one_confirmed
    ≡ (err concurrent_booking_update, one_confirmed)
stale_write_refused_example =
    stale_write_refused first_opened first_confirmed booking_cancelled [] requested
      one_confirmed-Reach first_found one_before two_before

return_has_reading_example :
    Domain.record_return (state_of first_active) (pos 1900) (pos 40) "photo"
    ≢ err start_odometer_missing
return_has_reading_example =
    return_has_reading 10 first_active (pos 1900) (pos 40) "photo" one_handed_over-Reach
      active_found

-- 900 miles in three days of 200 each.
overage_is_excess_example :
    compute_overage_cents (pos 1000) (pos 1900) (pos 200) (pos 3)
    ≡ max_ℤ (pos 1900 -ℤ pos 1000 -ℤ pos 200 *ℤ pos 3) (pos 0) *ℤ pos 50
overage_is_excess_example = overage_is_excess (pos 1000) (pos 1900) (pos 200) (pos 3)

overage_nonneg_example : pos 0 ≤ℤ compute_overage_cents (pos 1000) (pos 1900) (pos 200) (pos 3)
overage_nonneg_example = overage_nonneg (pos 1000) (pos 1900) (pos 200) (pos 3)

more_miles : pos 1900 ≤ℤ pos 2000
more_miles = ground arith

overage_mono_example :
    compute_overage_cents (pos 1000) (pos 1900) (pos 200) (pos 3)
    ≤ℤ compute_overage_cents (pos 1000) (pos 2000) (pos 200) (pos 3)
overage_mono_example = overage_mono (pos 1000) (pos 1900) (pos 2000) (pos 200) (pos 3) more_miles

confirms :
    decide confirm (state_of first_opened)
    ≡ ok (record {
      events = Domain.payment_authorized ∷ Domain.booking_confirmed ∷ [];
      next_status = confirmed;
    })
unfolding decide Domain.confirm_after_payment_authorized Domain.require_status
confirms = refl

decide-IsLawful_example : IsLawful (state_of first_opened) (record {
  events = Domain.payment_authorized ∷ Domain.booking_confirmed ∷ [];
  next_status = confirmed;
})
decide-IsLawful_example = decide-IsLawful confirm (state_of first_opened) confirms
