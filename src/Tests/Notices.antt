-- ===== src/Tests/Notices.antt =====
-- Concrete notices.
use car_flow_mvp.Base.{◌≡◌, false, true, List, [], ◌∷◌}
use car_flow_mvp.Booking.Domain.{confirmed}
use car_flow_mvp.Booking.Model.{BookingMessage, confirmed_message}
use car_flow_mvp.Notification.{
  NotificationPreference, sms, handle_booking_event, lifecycle_of, notices_to, expected,
  notices_expected,
}

-- The host has switched text messages off.
abbrev preferences : List NotificationPreference
preferences = record { user_id = 1; email_enabled = true; sms_enabled = false } ∷ []

abbrev confirmation : BookingMessage
confirmation =
    confirmed_message (record { booking_id = 10; renter_id = 2; host_id = 1; status = confirmed })

notices_expected_example :
    notices_to 1 sms (handle_booking_event preferences confirmation)
    ≡ expected preferences 1 sms (lifecycle_of confirmation)
notices_expected_example = notices_expected preferences confirmation 1 sms
