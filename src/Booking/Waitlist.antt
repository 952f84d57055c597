-- ===== src/Booking/Waitlist.antt =====
-- `promote_waitlist_entries_for_slots` of backend/src/apps/booking/services/booking_service.py.
pub mod Frame
pub mod Promotion
use slot_booking.Base.{
  ℕ, String, Bool, true, false, ◌&&◌, List, [], ◌∷◌, ◌++◌, Option, none, some, select, map, ◌==◌,
  leb,
}
use slot_booking.Base.Text.{str, ◌+++◌}
use slot_booking.Models.{
  Database, Resource, Slot, Booking, BookingStatus, PaymentStatus, RefundStatus, WaitlistEntry,
  BookingAuditEvent, Notification, NotificationType, order_by, get_resource, put_entry, add_audit,
}
use slot_booking.Effects.{
  Services, World, Action, ◌>>=◌, ◌>>◌, pure, scalar_one_or_none, utcnow, query, write,
}
use slot_booking.Booking.Policy.{waitlist_promotion_hold_minutes}
use slot_booking.Booking.Create.{create_or_get_idempotent_booking}

-- The `where` of the query: an active entry for the slot's resource whose span covers the slot.
abbrev pub wants : Slot → WaitlistEntry → Bool
wants slot e =
    e.is_active
    && (e.resource_id == slot.resource_id
        && (leb e.desired_start_at slot.starts_at && leb slot.ends_at e.desired_end_at))

-- `… .order_by(WaitlistEntry.created_at.asc())`
abbrev pub matching_entries : Slot → Database → List WaitlistEntry
matching_entries slot db =
    order_by (λ (e : WaitlistEntry). e.created_at) (select (wants slot) db.waitlist)

-- The `Booking(...)` of a promotion, which has no key before the flush (0 stands for `None`).
abbrev pub promotion_booking : WaitlistEntry → Resource → Slot → ℕ → ℕ → Booking
promotion_booking entry resource slot created updated = record {
  id = 0;
  tenant_id = entry.tenant_id;
  provider_id = resource.provider_id;
  resource_id = resource.id;
  user_id = entry.user_id;
  status = BookingStatus.pending;
  payment_status = PaymentStatus.pending;
  refund_status = RefundStatus.none_;
  amount_minor = resource.base_price_minor;
  currency = resource.currency;
  promo_code = none;
  promo_discount_minor = 0;
  idempotency_key = "waitlist:" +++ str entry.id +++ ":" +++ str slot.id;
  external_payment_id = none;
  notes = "Auto-promoted from waitlist. Complete checkout before the hold expires.";
  created_at = created;
  updated_at = updated;
  cancelled_at = none;
}

abbrev pub promoted_event : WaitlistEntry → Slot → Booking → BookingAuditEvent
promoted_event entry slot b = record {
  tenant_id = b.tenant_id;
  booking_id = b.id;
  event_type = "waitlist.promoted";
  actor_user_id = some entry.user_id;
  payload_json =
      "{\"waitlist_entry_id\":" +++ str entry.id +++ ",\"slot_id\":" +++ str slot.id +++ "}";
}

abbrev pub promotion_notice : ℕ → WaitlistEntry → Slot → Booking → Notification
promotion_notice id entry slot b = record {
  id = id;
  type = NotificationType.info;
  is_read = false;
  user_id = entry.user_id;
  title = "Waitlist promotion available";
  body =
      "A matching slot has been reserved for you. Complete checkout within 30 minutes to confirm it.";
  booking_id = b.id;
  slot_id = some slot.id;
  event = "waitlist.promoted";
}

-- What a promotion writes beside the booking: the audit event, the notification, and the entry as
-- served.
abbrev pub record_promotion : ℕ → WaitlistEntry → Slot → Booking → Database → Database
record_promotion notice_id entry slot b db =
    record (put_entry (record entry { is_active = false }) db) {
      audit_events = db.audit_events ++ promoted_event entry slot b ∷ [];
      notifications = db.notifications ++ promotion_notice notice_id entry slot b ∷ [];
    }

unfoldable pub promote_entry :
    {s : Services} → WaitlistEntry → Resource → Slot → Action (World s) Booking
promote_entry {s} entry resource slot = do
  created ← utcnow
  updated ← utcnow
  booking ←
      create_or_get_idempotent_booking (promotion_booking entry resource slot created updated) slot
        waitlist_promotion_hold_minutes
  notices ← query (λ db. db.notifications)
  write (record_promotion (s.new_id (map (λ (n : Notification). n.id) notices)) entry slot booking)
  pure booking

-- `if resource is None: continue`
pub promote_for :
    {s : Services} → Slot → WaitlistEntry → Option Resource → Action (World s) (List ℕ)
promote_for slot entry none = pure []
promote_for slot entry (some resource) = do
  booking ← promote_entry entry resource slot
  pure (booking.id ∷ [])

-- `if entry is None: continue`
pub promote_next : {s : Services} → Slot → Option WaitlistEntry → Action (World s) (List ℕ)
promote_next slot none = pure []
promote_next slot (some entry) = do
  resource ← query (get_resource slot.resource_id)
  promote_for slot entry resource

-- One round of the loop over the slots, with the booking ids that it appends.
unfoldable pub promote_slot : {s : Services} → Slot → Action (World s) (List ℕ)
unfolding promote_next promote_for
promote_slot slot = do
  entry ← scalar_one_or_none (← query (matching_entries slot))
  promote_next slot entry

unfoldable pub promote_waitlist_entries_for_slots :
    {s : Services} → List Slot → Action (World s) (List ℕ)
promote_waitlist_entries_for_slots [] = pure []
promote_waitlist_entries_for_slots (slot ∷ released_slots) = do
  promoted ← promote_slot slot
  rest ← promote_waitlist_entries_for_slots released_slots
  pure (promoted ++ rest)
