-- ===== src/Notification.antt =====
-- services/notification: who is told of a booking's life, and how. The log line of each message that
-- would be sent is a notice; the log is what the handlers return.
use car_flow_mvp.Base.{
  ℕ, ◌+◌, ◌≡◌, refl, Bool, true, false, Option, none, some, List, [], ◌∷◌, ◌++◌, ◌==◌, ◌&&◌, not,
  inl, inr, Bool-cases, if◌then◌else◌, arith,
}
use car_flow_mvp.Base.Table.{find}
use car_flow_mvp.Booking.Model.{
  BookingMessage, LifecycleData, authorize_payment_requested, capture_payment_requested,
  rejected_message, confirmed_message, cancelled_message, completed_message, capture_failed_message,
}

-- A row of `notification_preferences`.
pub record NotificationPreference : Type 0 where
  pub user_id : ℕ
  pub email_enabled : Bool
  pub sms_enabled : Bool

pub record ResolvedPreference : Type 0 where
  pub email_enabled : Bool
  pub sms_enabled : Bool

pub data Channel : Type 0 where
  email sms : Channel

-- The texts of `BOOKING_EVENT_TYPES`.
pub data EventType : Type 0 where
  booking_confirmed booking_cancelled booking_completed booking_rejected : EventType
  booking_payment_capture_failed : EventType

pub record Notice : Type 0 where
  pub channel : Channel
  pub user_id : ℕ
  pub event_type : EventType
  pub booking_id : ℕ

abbrev pub user_key : NotificationPreference → ℕ
user_key row = row.user_id

abbrev pub resolved : Option NotificationPreference → ResolvedPreference
resolved none = record { email_enabled = true; sms_enabled = true }
resolved (some row) = record { email_enabled = row.email_enabled; sms_enabled = row.sms_enabled }

unfoldable pub resolve_preference : List NotificationPreference → ℕ → ResolvedPreference
resolve_preference rows user_id = resolved (find user_key user_id rows)

abbrev pub notice_if : Bool → Channel → ℕ → EventType → ℕ → List Notice
notice_if true channel user_id event_type booking_id =
    record {
      channel = channel;
      user_id = user_id;
      event_type = event_type;
      booking_id = booking_id;
    }
    ∷ []
notice_if false channel user_id event_type booking_id = []

unfoldable pub notify_user : List NotificationPreference → ℕ → EventType → ℕ → List Notice
notify_user rows user_id event_type booking_id =
    let preference = resolve_preference rows user_id in
    notice_if preference.email_enabled email user_id event_type booking_id
    ++ notice_if preference.sms_enabled sms user_id event_type booking_id

unfoldable pub notify_booking_event :
    List NotificationPreference → EventType → LifecycleData → List Notice
notify_booking_event rows event_type data_ =
    notify_user rows data_.renter_id event_type data_.booking_id
    ++ notify_user rows data_.host_id event_type data_.booking_id

-- `BOOKING_EVENT_HANDLERS`, on a message of the topic.
unfoldable pub handle_booking_event : List NotificationPreference → BookingMessage → List Notice
handle_booking_event rows (confirmed_message d) = notify_booking_event rows booking_confirmed d
handle_booking_event rows (cancelled_message d) = notify_booking_event rows booking_cancelled d
handle_booking_event rows (completed_message d) = notify_booking_event rows booking_completed d
handle_booking_event rows (rejected_message d) = notify_booking_event rows booking_rejected d
handle_booking_event rows (capture_failed_message d) =
    notify_booking_event rows booking_payment_capture_failed d
handle_booking_event rows (authorize_payment_requested b r a) = []
handle_booking_event rows (capture_payment_requested b h a o) = []

abbrev is_on : Channel → Channel → Bool
is_on email email = true
is_on sms sms = true
is_on _ _ = false

-- How many notices go to a user over a channel.
unfoldable pub notices_to : ℕ → Channel → List Notice → ℕ
notices_to user_id channel [] = 0
notices_to user_id channel (notice ∷ notices) =
    (if (notice.user_id == user_id) && is_on notice.channel channel then 1 else 0)
    + notices_to user_id channel notices

-- Whether a row of the table switches a channel off for a user; who has no row has switched off nothing.
abbrev pub switches_off : Channel → NotificationPreference → Bool
switches_off email row = not row.email_enabled
switches_off sms row = not row.sms_enabled

abbrev pub switched_off : Channel → ℕ → List NotificationPreference → Bool
switched_off channel user_id [] = false
switched_off channel user_id (row ∷ rows) =
    if row.user_id == user_id then switches_off channel row else switched_off channel user_id rows

-- The data of the messages that tell of a booking's life.
abbrev pub lifecycle_of : BookingMessage → Option LifecycleData
lifecycle_of (confirmed_message d) = some d
lifecycle_of (cancelled_message d) = some d
lifecycle_of (completed_message d) = some d
lifecycle_of (rejected_message d) = some d
lifecycle_of (capture_failed_message d) = some d
lifecycle_of _ = none

notices_to-append :
    (u : ℕ) (c : Channel) (xs ys : List Notice)
    → notices_to u c (xs ++ ys) ≡ notices_to u c xs + notices_to u c ys
unfolding notices_to
notices_to-append u c [] ys = ground arith
notices_to-append u c (x ∷ xs) ys = ground (arith, notices_to-append u c xs ys)

resolved_email :
    (rows : List NotificationPreference) (v : ℕ)
    → (resolve_preference rows v).email_enabled ≡ not (switched_off email v rows)
unfolding resolve_preference find
resolved_email [] v = refl
resolved_email (row ∷ rows) v = elim (Bool-cases (row.user_id == v)) [
  | inl same ↦ ground arith
  | inr other ↦ rw (other) (resolved_email rows v)
]

resolved_sms :
    (rows : List NotificationPreference) (v : ℕ)
    → (resolve_preference rows v).sms_enabled ≡ not (switched_off sms v rows)
unfolding resolve_preference find
resolved_sms [] v = refl
resolved_sms (row ∷ rows) v = elim (Bool-cases (row.user_id == v)) [
  | inl same ↦ ground arith
  | inr other ↦ rw (other) (resolved_sms rows v)
]

-- How many notices are meant for a user over a channel, where another user is told.
abbrev told : List NotificationPreference → ℕ → Channel → ℕ → ℕ
told rows u c v = if (v == u) && not (switched_off c v rows) then 1 else 0

notified_user :
    (rows : List NotificationPreference) (v : ℕ) (t : EventType) (b u : ℕ) (c : Channel)
    → notices_to u c (notify_user rows v t b) ≡ told rows u c v
unfolding notify_user notices_to
notified_user rows v t b u email = rw (resolved_email rows v) (ground arith)
notified_user rows v t b u sms = rw (resolved_sms rows v) (ground arith)

notified_both :
    (rows : List NotificationPreference) (t : EventType) (d : LifecycleData) (u : ℕ) (c : Channel)
    → notices_to u c (notify_booking_event rows t d)
      ≡ told rows u c d.renter_id + told rows u c d.host_id
unfolding notify_booking_event
notified_both rows t d u c = ground (
  arith,
  notices_to-append u c (notify_user rows d.renter_id t d.booking_id)
      (notify_user rows d.host_id t d.booking_id),
  notified_user rows d.renter_id t d.booking_id u c,
  notified_user rows d.host_id t d.booking_id u c,
)

abbrev pub expected : List NotificationPreference → ℕ → Channel → Option LifecycleData → ℕ
expected rows u c none = 0
expected rows u c (some d) = told rows u c d.renter_id + told rows u c d.host_id

-- A message about a booking's life sends over each channel one notice to its renter and one to its
-- host, if they have not switched the channel off in their row of the table, and none to anybody else; the payment commands on
-- the topic send none.
pub notices_expected :
    (rows : List NotificationPreference) (message : BookingMessage) (user_id : ℕ)
    (channel : Channel)
    → notices_to user_id channel (handle_booking_event rows message)
      ≡ expected rows user_id channel (lifecycle_of message)
unfolding handle_booking_event notices_to
notices_expected rows (confirmed_message d) u c = notified_both rows booking_confirmed d u c
notices_expected rows (cancelled_message d) u c = notified_both rows booking_cancelled d u c
notices_expected rows (completed_message d) u c = notified_both rows booking_completed d u c
notices_expected rows (rejected_message d) u c = notified_both rows booking_rejected d u c
notices_expected rows (capture_failed_message d) u c =
    notified_both rows booking_payment_capture_failed d u c
notices_expected rows (authorize_payment_requested b r a) u c = refl
notices_expected rows (capture_payment_requested b h a o) u c = refl
