-- ===== src/Booking/Cancel.antt =====
-- `get_booking_slots` and `cancel_booking` of
-- backend/src/apps/booking/services/booking_service.py.
pub mod Outcome
use slot_booking.Base.{
  ℕ, String, Bool, true, false, not, ◌&&◌, List, [], ◌∷◌, ◌++◌, Option, none, some, map, select,
  any, ◌==◌, if◌then◌else◌,
}
use slot_booking.Base.Text.{str, ◌+++◌}
use slot_booking.Models.{
  Database, Slot, SlotStatus, Booking, BookingSlot, BookingStatus, PaymentStatus, RefundStatus,
  RefundRecord, BookingAuditEvent, is_cancellable, is_paid, order_by, get_booking, put_slot,
  put_booking, add_audit,
}
use slot_booking.Effects.{
  Services, World, Action, http, booking_not_found, booking_not_cancellable, ◌>>=◌, ◌>>◌, pure,
  or_raise, raise_if, utcnow, query, write,
}
use slot_booking.Booking.Policy.{calculate_refund_amount}
use slot_booking.Booking.Validate.{reopened}
use slot_booking.Booking.Waitlist.{promote_waitlist_entries_for_slots}

-- `join(BookingSlot, BookingSlot.slot_id == Slot.id).where(booking_id == …)`; a booking and a slot are
-- linked once at most (`uq_booking_slot`).
abbrev pub is_slot_of : List BookingSlot → ℕ → Slot → Bool
is_slot_of links booking_id slot =
    any (λ (l : BookingSlot). l.booking_id == booking_id && l.slot_id == slot.id) links

abbrev pub booking_slots_of : ℕ → Database → List Slot
booking_slots_of booking_id db =
    order_by (λ (slot : Slot). slot.starts_at)
      (select (is_slot_of db.booking_slots booking_id) db.slots)

abbrev pub get_booking_slots : {s : Services} → ℕ → Action (World s) (List Slot)
get_booking_slots booking_id = query (booking_slots_of booking_id)

-- `released_slots[0].starts_at if released_slots else _utcnow()`
abbrev pub first_start : {s : Services} → List Slot → Action (World s) ℕ
first_start [] = utcnow
first_start (slot ∷ slots) = pure slot.starts_at

abbrev pub release_slots : List Slot → Database → Database
release_slots [] db = db
release_slots (slot ∷ slots) db = release_slots slots (put_slot (reopened slot) db)

-- The refund of a booking that is cancelled: nothing unless it was paid.
abbrev pub refund_of : Booking → ℕ → ℕ → ℕ
refund_of booking starts cancelled_at =
    if is_paid booking.payment_status
    then calculate_refund_amount booking.amount_minor starts cancelled_at
    else 0

-- The booking's fields after the cancellation.
abbrev pub cancelled_row : Booking → ℕ → ℕ → Booking
cancelled_row booking refund_amount cancelled_at = record booking {
  status = BookingStatus.cancelled;
  cancelled_at = some cancelled_at;
  updated_at = cancelled_at;
  refund_status = if refund_amount == 0 then RefundStatus.none_ else RefundStatus.pending;
  payment_status =
      if not (refund_amount == 0) && refund_amount == booking.amount_minor
      then PaymentStatus.refunded
      else booking.payment_status;
}

-- `if refund_amount: db.add(RefundRecord(...))`
abbrev pub add_refund : Booking → ℕ → Database → Database
add_refund booking refund_amount db = record db {
  refunds =
      if refund_amount == 0
      then db.refunds
      else db.refunds
        ++ record {
          tenant_id = booking.tenant_id;
          booking_id = booking.id;
          amount_minor = refund_amount;
          currency = booking.currency;
          status = RefundStatus.pending;
          reason = "policy_cancellation";
        }
          ∷ [];
}

-- The text of a list of numbers: `[1, 2]`.
show_rest : List ℕ → String
show_rest [] = "]"
show_rest (n ∷ ns) = ", " +++ str n +++ show_rest ns

unfoldable pub show_list : List ℕ → String
unfolding show_rest
show_list [] = "[]"
show_list (n ∷ ns) = "[" +++ str n +++ show_rest ns

abbrev pub cancelled_event : Booking → ℕ → ℕ → List ℕ → BookingAuditEvent
cancelled_event booking actor_user_id refund_amount promoted = record {
  tenant_id = booking.tenant_id;
  booking_id = booking.id;
  event_type = "booking.cancelled";
  actor_user_id = some actor_user_id;
  payload_json =
      "{\"refund_amount_minor\":"
      +++ str refund_amount
      +++ ",\"promoted_booking_ids\":"
      +++ show_list promoted
      +++ "}";
}

unfoldable pub cancel_booking : {s : Services} → ℕ → ℕ → Action (World s) Booking
cancel_booking booking_id actor_user_id = do
  booking ← or_raise (← query (get_booking booking_id)) (http 404 booking_not_found)
  raise_if (not (is_cancellable booking.status)) (http 409 booking_not_cancellable)
  released_slots ← get_booking_slots booking.id
  first_slot_start ← first_start released_slots
  write (release_slots released_slots)
  cancelled_at ← utcnow
  let refund_amount = refund_of booking first_slot_start cancelled_at
  let cancelled = cancelled_row booking refund_amount cancelled_at
  write (put_booking cancelled)
  write (add_refund cancelled refund_amount)
  promoted ← promote_waitlist_entries_for_slots (map reopened released_slots)
  write (add_audit (cancelled_event cancelled actor_user_id refund_amount promoted))
  pure cancelled
