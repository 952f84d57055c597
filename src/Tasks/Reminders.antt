-- ===== src/Tasks/Reminders.antt =====
-- What `booking_send_upcoming_reminders_task` sends.
use slot_booking.Base.{
  suc, ◌+◌, ◌≡◌, refl, ap, ◌∙◌, List, [], ◌∷◌, length, length-append, select, true, arith,
}
use slot_booking.Models.{Booking, Notification}
use slot_booking.Effects.{Services, World, ok}
use slot_booking.Booking.Notices.{reminder_notice}
use slot_booking.Notifications.Inbox.{create_notification_commits}
use slot_booking.Notifications.{create_notification}
use slot_booking.Tasks.{is_recent, remind_all, booking_send_upcoming_reminders_task}

remind_all_lem :
    {s : Services} (bookings : List Booking) (w : World s)
    → ((remind_all bookings w).0 ≡ ok tt)
      × (length (remind_all bookings w).1.db.notifications
          ≡ length w.db.notifications + length bookings)
unfolding remind_all
remind_all_lem [] w = (refl, omega arith)
remind_all_lem (b ∷ bookings) w =
    let (n, sent, kept, more) =
      create_notification_commits (reminder_notice b.user_id b.id) true w in
    let rest =
      remind_all_lem bookings (create_notification (reminder_notice b.user_id b.id) true w).1 in
    let count =
      ap (λ (ns : List Notification). length ns) more ∙ length-append w.db.notifications (n ∷ []) in
    (ground (arith, sent, rest), ground (arith, sent, rest, count))

-- The task always ends well. It counts the confirmed bookings that are at most a day old, and as many
-- notifications are stored and committed.
pub booking_send_upcoming_reminders_task_lem :
    {s : Services} (w : World s)
    → let n = length (select (is_recent (w.clock w.reads)) w.db.bookings) in
      let (r, w') = booking_send_upcoming_reminders_task w in
      (r ≡ ok n) × (length w'.saved.notifications ≡ length w.db.notifications + n)
unfolding booking_send_upcoming_reminders_task
booking_send_upcoming_reminders_task_lem w =
    let bookings = select (is_recent (w.clock w.reads)) w.db.bookings in
    let sent = remind_all_lem bookings (record w { reads = suc w.reads }) in
    (ground (arith, sent), ground (arith, sent))
