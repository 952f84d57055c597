-- ===== src/Tests/Routes.antt =====
-- Background tasks, the inbox and the slot routes at concrete inputs.
use slot_booking.Base.{◌+◌, ◌-◌, ◌≡◌, refl, ap, some, none, ◌∷◌, []}
use slot_booking.Base.Text.{value-str}
use slot_booking.Models.{NotificationType}
use slot_booking.Effects.{World, ok, hours, seconds}
use slot_booking.Notifications.{NotificationCreate}
use slot_booking.Tasks.{booking_send_upcoming_reminders_task}
use slot_booking.Tasks.Reminders.{booking_send_upcoming_reminders_task_lem}
use slot_booking.Booking.Create.{held_slot}
use slot_booking.Api.Slots.{hold_slot}
use slot_booking.Api.Slots.Takeover.{hold_slot_takes_over}
use slot_booking.Tests.Demo.{
  services, cache_laws, world, world_of, database, open_slot, booked_slot, start,
}

-- The open slot was held until an hour ago.
abbrev lapsed : World services
lapsed =
    world_of (record database { slots = held_slot open_slot (start - hours 1) ∷ booked_slot ∷ [] })

abbrev reserved_notice : NotificationCreate
reserved_notice = record {
  user_id = 40;
  title = "Booking reserved";
  body = "";
  type = NotificationType.success;
  booking_id = 9;
  event = "booking.created";
}

-- The open slot is held by a pending booking, whose key in the cache is gone.
abbrev pending : World services
pending =
    world_of (record database { slots = held_slot open_slot (start + hours 1) ∷ booked_slot ∷ [] })

takeover_example : (hold_slot 5 77 pending).0 ≡ ok (start + seconds 600)
takeover_example =
    (hold_slot_takes_over cache_laws (λ n. ap some (value-str n)) 5 77 pending
      (held_slot open_slot (start + hours 1)) (λ k. none) refl refl refl refl).0

reminders_example : (booking_send_upcoming_reminders_task world).0 ≡ ok 1
reminders_example = (booking_send_upcoming_reminders_task_lem world).0
