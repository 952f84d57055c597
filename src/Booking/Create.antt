-- ===== src/Booking/Create.antt =====
-- `get_booking_by_idempotency_key` and `create_or_get_idempotent_booking` of
-- backend/src/apps/booking/services/booking_service.py.
pub mod Rows
pub mod Idempotence
use slot_booking.Base.{
  ℕ, String, Bool, true, false, ◌&&◌, List, [], ◌∷◌, ◌++◌, Option, none, some, map, select, any,
  ◌==◌, leb, if◌then◌else◌,
}
use slot_booking.Base.Text.{str_eq, str, ◌+++◌}
use slot_booking.Models.{
  Database, Booking, BookingSlot, BookingStatus, PaymentStatus, InvoiceStatus, SlotStatus, Slot,
  Invoice, BookingAuditEvent, put_slot, add_audit,
}
use slot_booking.Effects.{
  Services, World, Action, ◌>>=◌, ◌>>◌, pure, flush_unless, scalar_one_or_none, utcnow, query,
  write,
}
use slot_booking.Booking.Policy.{default_hold_expiry}
use slot_booking.Booking.Hold.{release_slot_hold}

-- `Booking.idempotency_key == …, Booking.user_id == …`
abbrev pub has_key : String → ℕ → Booking → Bool
has_key key user_id b = str_eq b.idempotency_key key && b.user_id == user_id

unfoldable pub get_booking_by_idempotency_key :
    {s : Services} → String → ℕ → Action (World s) (Option Booking)
get_booking_by_idempotency_key key user_id = do
  scalar_one_or_none (← query (λ db. select (has_key key user_id) db.bookings))

-- `slot.hold_expires_at`, or a new expiry where that is missing or past.
unfoldable pub hold_expiry : {s : Services} → Option ℕ → ℕ → Action (World s) ℕ
hold_expiry none hold_minutes = default_hold_expiry hold_minutes
hold_expiry (some t) hold_minutes = do
  now ← utcnow
  if leb t now then default_hold_expiry hold_minutes else pure t

-- `db.add(booking)` and `db.flush()`: the row gets its key, unless its idempotency key is taken
-- (`uq_booking_idempotency_key`) and the transaction is rolled back.
unfoldable pub insert_booking : {s : Services} → Booking → Action (World s) Booking
insert_booking {s} booking = do
  bookings ← query (λ db. db.bookings)
  flush_unless (any (λ (b : Booking). str_eq b.idempotency_key booking.idempotency_key) bookings)
  let row = record booking { id = s.new_id (map (λ (b : Booking). b.id) bookings) }
  write (λ db. record db { bookings = db.bookings ++ row ∷ [] })
  pure row

abbrev pub created_event : Booking → BookingAuditEvent
created_event b = record {
  tenant_id = b.tenant_id;
  booking_id = b.id;
  event_type = "booking.created";
  actor_user_id = some b.user_id;
  payload_json = "{\"source\":\"api\"}";
}

abbrev pub draft_invoice : Booking → ℕ → Invoice
draft_invoice b issued_at = record {
  tenant_id = b.tenant_id;
  booking_id = b.id;
  invoice_no = "INV-" +++ str b.tenant_id +++ "-" +++ str b.id;
  status = InvoiceStatus.draft;
  subtotal_minor = b.amount_minor;
  discount_minor = 0;
  tax_minor = 0;
  total_minor = b.amount_minor;
  issued_at = some issued_at;
}

abbrev pub held_slot : Slot → ℕ → Slot
held_slot slot expires = record slot { status = SlotStatus.held; hold_expires_at = some expires }

-- The rows that go with a new booking, and its slot held.
abbrev pub reserve : Booking → Slot → ℕ → ℕ → Database → Database
reserve b slot expires issued_at db = record (put_slot (held_slot slot expires) db) {
  booking_slots = db.booking_slots ++ record { booking_id = b.id; slot_id = slot.id } ∷ [];
  audit_events = db.audit_events ++ created_event b ∷ [];
  invoices = db.invoices ++ draft_invoice b issued_at ∷ [];
}

unfoldable pub create_booking_rows : {s : Services} → Booking → Slot → ℕ → Action (World s) Booking
unfolding hold_expiry insert_booking
create_booking_rows booking slot hold_minutes = do
  expires ← hold_expiry slot.hold_expires_at hold_minutes
  row ←
      insert_booking
        (record booking { status = BookingStatus.pending; payment_status = PaymentStatus.pending })
  issued_at ← utcnow
  write (reserve row slot expires issued_at)
  release_slot_hold slot.id booking.user_id
  pure row

unfoldable pub create_or_get_idempotent_booking :
    {s : Services} → Booking → Slot → ℕ → Action (World s) Booking
unfolding get_booking_by_idempotency_key
create_or_get_idempotent_booking booking slot hold_minutes = do
  existing ← get_booking_by_idempotency_key booking.idempotency_key booking.user_id
  elim existing [ some b ↦ pure b | none ↦ create_booking_rows booking slot hold_minutes ]
