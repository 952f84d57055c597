-- ===== src/Tasks.antt =====
-- backend/src/apps/booking/tasks.py: the background tasks that release lapsed holds and promote
-- waitlist entries. Celery runs them; each opens a session of its own.
pub mod Expiry
pub mod Reminders
use slot_booking.Base.{
  ℕ, Bool, true, false, ◌&&◌, List, [], ◌∷◌, Option, none, some, select, any, length, ltb, leb, ◌-◌,
  ◌==◌, if◌then◌else◌,
}
use slot_booking.Base.Text.{str, ◌+++◌}
use slot_booking.Models.{
  Database, Slot, Booking, BookingStatus, BookingAuditEvent, WaitlistEntry, is_held, is_open,
  is_pending, is_confirmed, order_by, put_slot, put_booking, add_audit,
}
use slot_booking.Effects.{
  Services, World, Action, ◌>>=◌, ◌>>◌, pure, utcnow, query, write, commit, hours,
}
use slot_booking.Booking.Validate.{reopened}
use slot_booking.Booking.Waitlist.{promote_waitlist_entries_for_slots}
use slot_booking.Booking.Notices.{notify_booking_reminder}
use slot_booking.Booking.Cancel.{booking_slots_of}

-- `Slot.hold_expires_at < now`, which a missing expiry does not meet
abbrev pub lapsed_by : Option ℕ → ℕ → Bool
lapsed_by none now = false
lapsed_by (some t) now = ltb t now

abbrev pub is_lapsed : ℕ → Slot → Bool
is_lapsed now slot = is_held slot.status && lapsed_by slot.hold_expires_at now

abbrev pub expired_row : ℕ → Booking → Booking
expired_row now b = record b {
  status = BookingStatus.cancelled;
  updated_at = now;
  cancelled_at = some now;
}

abbrev pub expired_event : Slot → Booking → BookingAuditEvent
expired_event slot b = record {
  tenant_id = b.tenant_id;
  booking_id = b.id;
  event_type = "booking.expired";
  actor_user_id = some b.user_id;
  payload_json = "{\"slot_id\":" +++ str slot.id +++ "}";
}

-- `any(booking_slot.id == slot.id for booking_slot in booking_slots)`
abbrev pub has_slot : Slot → Database → Booking → Bool
has_slot slot db b = any (λ (x : Slot). x.id == slot.id) (booking_slots_of b.id db)

pub expire_booking : Slot → ℕ → Booking → Database → Database
expire_booking slot now b db =
    if has_slot slot db b
    then add_audit (expired_event slot b) (put_booking (expired_row now b) db)
    else db

pub expire_bookings : Slot → ℕ → List Booking → Database → Database
unfolding expire_booking
expire_bookings slot now [] db = db
expire_bookings slot now (b ∷ pending) db =
    expire_bookings slot now pending (expire_booking slot now b db)

-- The loop over the lapsed slots.
pub release_expired : ℕ → List Slot → Database → Database
release_expired now [] db = db
release_expired now (slot ∷ slots) db =
    let freed = put_slot (reopened slot) db in
    release_expired now slots (
      expire_bookings slot now (select (λ (b : Booking). is_pending b.status) freed.bookings) freed)

unfoldable pub booking_release_expired_holds_task : {s : Services} → Action (World s) ℕ
unfolding release_expired expire_bookings
booking_release_expired_holds_task = do
  now ← utcnow
  slots ← query (λ db. select (is_lapsed now) db.slots)
  write (release_expired now slots)
  commit
  pure (length slots)

-- `if not waitlist_result.scalars().first(): return 0`
abbrev promote_open : {s : Services} → List WaitlistEntry → Action (World s) ℕ
promote_open [] = pure 0
promote_open (entry ∷ entries) = do
  slots ← query (λ db.
      order_by (λ (x : Slot). x.starts_at) (select (λ (x : Slot). is_open x.status) db.slots))
  promoted ← promote_waitlist_entries_for_slots slots
  commit
  pure (length promoted)

unfoldable pub booking_promote_waitlist_task : {s : Services} → Action (World s) ℕ
booking_promote_waitlist_task = do
  entries ← query (λ db. select (λ (e : WaitlistEntry). e.is_active) db.waitlist)
  promote_open entries

-- `Booking.status == CONFIRMED, Booking.created_at >= threshold`
abbrev pub is_recent : ℕ → Booking → Bool
is_recent now b = is_confirmed b.status && leb (now - hours 24) b.created_at

pub remind_all : {s : Services} → List Booking → Action (World s) (Unit {0})
remind_all [] = pure tt
remind_all (b ∷ bookings) = do notify_booking_reminder b.user_id b.id; remind_all bookings

unfoldable pub booking_send_upcoming_reminders_task : {s : Services} → Action (World s) ℕ
booking_send_upcoming_reminders_task = do
  now ← utcnow
  bookings ← query (λ db. select (is_recent now) db.bookings)
  remind_all bookings
  commit
  pure (length bookings)
