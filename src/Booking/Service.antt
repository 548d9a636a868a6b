-- ===== src/Booking/Service.antt =====
-- services/booking/service.py. An operation gets the values that its calls of `uuid4` return, and
-- what the listing service answers, as arguments.
use car_flow_mvp.Base.{ℕ, Bool, true, false, ◌&&◌, ◌||◌, not, some, String, List, [], ◌∷◌, ◌==◌, ⊤}
use car_flow_mvp.Base.Int.{ℤ, pos, max_ℤ, ◌*ℤ◌}
use car_flow_mvp.Base.Result.{Result, map_err}
use car_flow_mvp.Base.Exec.{pure, lift, or_raise, raise_if, when, modify, ◌>>=◌, ◌>>◌}
use car_flow_mvp.Shared.Outbox.{write_outbox_event}
use car_flow_mvp.Shared.Auth.{Role, admin, same_role}
use car_flow_mvp.Booking.Domain.{
  instant, requested, booking_requested, booking_handover_recorded, booking_return_recorded,
  same_mode, days_between, DomainError, DomainEvent, Transition,
}
use car_flow_mvp.Booking.Domain
use car_flow_mvp.Booking.Model.{
  Booking, LifecycleData, BookingMessage, authorize_payment_requested, capture_payment_requested,
  rejected_message, confirmed_message, cancelled_message, completed_message, capture_failed_message,
}
use car_flow_mvp.Booking.ListingClient.{
  ApprovalStatus, approved, ListingResponse, ClientError, vehicle_not_found, http_status_error,
  get_vehicle,
}
use car_flow_mvp.Booking.Repository.{
  BookingError, booking_not_found, not_booking_party, vehicle_not_bookable, upstream_error,
  domain_error, Action, state_of, get_by_id, create_requested, append_events, save, list_all,
}

-- `_apply_transition` looks at the first event only.
abbrev pub apply_first : Booking → List DomainEvent → Booking
apply_first booking (booking_handover_recorded odometer fuel_percent photo_url ∷ events) =
    record booking {
      start_odometer = some odometer;
      start_fuel_percent = some fuel_percent;
      start_photo_url = some photo_url;
    }
apply_first booking (booking_return_recorded odometer fuel_percent photo_url overage ∷ events) =
    record booking {
      end_odometer = some odometer;
      end_fuel_percent = some fuel_percent;
      end_photo_url = some photo_url;
      overage_cents = overage;
    }
apply_first booking _ = booking

unfoldable pub apply_transition : Booking → Transition → Booking
apply_transition booking transition = apply_first booking transition.events

abbrev pub emit : ℕ → Booking → BookingMessage → Action ⊤
emit event_id booking message = modify (λ db. record db {
  outbox = write_outbox_event event_id "booking" booking.id message db.outbox;
})

abbrev pub lifecycle_data : Booking → LifecycleData
lifecycle_data booking = record {
  booking_id = booking.id;
  renter_id = booking.renter_id;
  host_id = booking.host_id;
  status = booking.status;
}

unfoldable pub emit_domain_event : ℕ → Booking → (LifecycleData → BookingMessage) → Action ⊤
emit_domain_event event_id booking event_type =
    emit event_id booking (event_type (lifecycle_data booking))

-- `daily_price_cents * max((end_date - start_date).days, 1)`
unfoldable pub hold_amount : Booking → ℤ
hold_amount booking =
    booking.daily_price_cents *ℤ max_ℤ (days_between booking.start_date booking.end_date) (pos 1)

unfoldable pub emit_authorize_payment_requested : ℕ → Booking → Action ⊤
emit_authorize_payment_requested event_id booking =
    emit event_id booking
      (authorize_payment_requested booking.id booking.renter_id (hold_amount booking))

-- `vehicle.approval_status != "approved"`
abbrev pub is_approved : ApprovalStatus → Bool
is_approved approved = true
is_approved _ = false

abbrev pub not_bookable : ClientError → BookingError
not_bookable vehicle_not_found = vehicle_not_bookable
not_bookable http_status_error = upstream_error

unfoldable pub request_booking :
    ListingResponse
    → (booking_id event_id renter_id vehicle_id start_date end_date : ℕ) → Action Booking
request_booking response booking_id event_id renter_id vehicle_id start_date end_date = do
  vehicle ← lift (map_err not_bookable (get_vehicle response))
  raise_if (not (is_approved vehicle.approval_status)) vehicle_not_bookable
  created ←
      create_requested booking_id vehicle_id vehicle.host_id renter_id start_date end_date
        vehicle.daily_price_cents vehicle.daily_mileage_limit vehicle.booking_mode
  booking ← append_events created (booking_requested ∷ []) requested
  when (same_mode vehicle.booking_mode instant) (emit_authorize_payment_requested event_id booking)
  save booking
  pure booking

-- `repo.get_by_id`, and its None.
abbrev pub load : ℕ → Action Booking
load booking_id = do row ← get_by_id booking_id; or_raise booking_not_found row

-- `if booking.host_id != host_id`
abbrev pub require_host : Booking → ℕ → Action ⊤
require_host booking host_id = raise_if (not (booking.host_id == host_id)) not_booking_party

abbrev pub decided : {A : Type 0} → Result DomainError A → Action A
decided r = lift (map_err domain_error r)

unfoldable pub accept_booking_request : (event_id booking_id host_id : ℕ) → Action Booking
accept_booking_request event_id booking_id host_id = do
  found ← load booking_id
  require_host found host_id
  transition ← decided (Domain.accept_request (state_of found))
  booking ← append_events found transition.events transition.next_status
  emit_authorize_payment_requested event_id booking
  save booking
  pure booking

unfoldable pub reject_booking_request : (event_id booking_id host_id : ℕ) → Action Booking
reject_booking_request event_id booking_id host_id = do
  found ← load booking_id
  require_host found host_id
  transition ← decided (Domain.reject_request (state_of found))
  booking ← append_events found transition.events transition.next_status
  emit_domain_event event_id booking rejected_message
  save booking
  pure booking

unfoldable pub list_all_bookings :
    (can_send : ℤ → Bool) → (limit offset : ℤ) → Action (List Booking)
list_all_bookings can_send limit offset = list_all can_send limit offset

unfoldable pub get_booking_for_viewer : ℕ → ℕ → Role → Action Booking
get_booking_for_viewer booking_id viewer_id viewer_role = do
  booking ← load booking_id
  raise_if
      (not (same_role viewer_role admin)
        && not ((viewer_id == booking.renter_id) || (viewer_id == booking.host_id)))
      not_booking_party
  pure booking

unfoldable pub record_handover : (booking_id host_id : ℕ) → ℤ → ℤ → String → Action Booking
record_handover booking_id host_id odometer fuel_percent photo_url = do
  found ← load booking_id
  require_host found host_id
  transition ← decided (Domain.record_handover (state_of found) odometer fuel_percent photo_url)
  booking ←
      append_events (apply_transition found transition) transition.events transition.next_status
  save booking
  pure booking

unfoldable pub record_return : (event_id booking_id host_id : ℕ) → ℤ → ℤ → String → Action Booking
record_return event_id booking_id host_id odometer fuel_percent photo_url = do
  found ← load booking_id
  require_host found host_id
  returned ← decided (Domain.record_return (state_of found) odometer fuel_percent photo_url)
  booking ←
      append_events (apply_transition found returned.0) returned.0.events returned.0.next_status
  emit event_id booking
      (capture_payment_requested booking.id booking.host_id (hold_amount booking) returned.1)
  save booking
  pure booking

unfoldable pub apply_payment_authorized : (event_id booking_id : ℕ) → Action Booking
apply_payment_authorized event_id booking_id = do
  found ← load booking_id
  transition ← decided (Domain.confirm_after_payment_authorized (state_of found))
  booking ← append_events found transition.events transition.next_status
  emit_domain_event event_id booking confirmed_message
  save booking
  pure booking

unfoldable pub apply_payment_authorization_failed : (event_id booking_id : ℕ) → Action Booking
apply_payment_authorization_failed event_id booking_id = do
  found ← load booking_id
  transition ← decided (Domain.cancel_after_payment_authorization_failed (state_of found))
  booking ← append_events found transition.events transition.next_status
  emit_domain_event event_id booking cancelled_message
  save booking
  pure booking

unfoldable pub apply_payment_captured : (event_id booking_id : ℕ) → Action Booking
apply_payment_captured event_id booking_id = do
  found ← load booking_id
  transition ← decided (Domain.complete_after_payment_captured (state_of found))
  booking ← append_events found transition.events transition.next_status
  emit_domain_event event_id booking completed_message
  save booking
  pure booking

unfoldable pub apply_payment_capture_failed : (event_id booking_id : ℕ) → Action Booking
apply_payment_capture_failed event_id booking_id = do
  found ← load booking_id
  transition ← decided (Domain.note_payment_capture_failed (state_of found))
  booking ← append_events found transition.events transition.next_status
  emit_domain_event event_id booking capture_failed_message
  save booking
  pure booking
