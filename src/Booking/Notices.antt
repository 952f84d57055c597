-- ===== src/Booking/Notices.antt =====
-- backend/src/apps/booking/services/notification_service.py.
use slot_booking.Base.{ℕ, true}
use slot_booking.Base.Text.{str, ◌+++◌}
use slot_booking.Models.{NotificationType}
use slot_booking.Effects.{Services, World, Action, ◌>>◌, pure}
use slot_booking.Notifications.{NotificationCreate, create_notification}

abbrev pub created_notice : ℕ → ℕ → NotificationCreate
created_notice user_id booking_id = record {
  user_id = user_id;
  title = "Booking reserved";
  body = "Your booking #" +++ str booking_id +++ " is reserved. Complete checkout to confirm it.";
  type = NotificationType.success;
  booking_id = booking_id;
  event = "booking.created";
}

abbrev pub cancelled_notice : ℕ → ℕ → NotificationCreate
cancelled_notice user_id booking_id = record {
  user_id = user_id;
  title = "Booking cancelled";
  body = "Your booking #" +++ str booking_id +++ " has been cancelled.";
  type = NotificationType.warning;
  booking_id = booking_id;
  event = "booking.cancelled";
}

abbrev pub reminder_notice : ℕ → ℕ → NotificationCreate
reminder_notice user_id booking_id = record {
  user_id = user_id;
  title = "Booking reminder";
  body = "Reminder: booking #" +++ str booking_id +++ " is coming up soon.";
  type = NotificationType.info;
  booking_id = booking_id;
  event = "booking.reminder";
}

abbrev pub notify_booking_created : {s : Services} → ℕ → ℕ → Action (World s) (Unit {0})
notify_booking_created user_id booking_id = do
  create_notification (created_notice user_id booking_id) true
  pure tt

abbrev pub notify_booking_cancelled : {s : Services} → ℕ → ℕ → Action (World s) (Unit {0})
notify_booking_cancelled user_id booking_id = do
  create_notification (cancelled_notice user_id booking_id) true
  pure tt

abbrev pub notify_booking_reminder : {s : Services} → ℕ → ℕ → Action (World s) (Unit {0})
notify_booking_reminder user_id booking_id = do
  create_notification (reminder_notice user_id booking_id) true
  pure tt
