-- ===== src/Booking/Validate.antt =====
-- `validate_slot_booking_request` and `_normalise_expired_hold` of
-- backend/src/apps/booking/services/booking_service.py.
pub mod Checks
pub mod Rules
use slot_booking.Base.{
  ℕ, ◌+◌, ◌-◌, ◌/◌, ◌%◌, Bool, true, false, not, ◌&&◌, ◌||◌, Option, none, some, ltb, leb, ◌==◌,
  if◌then◌else◌,
}
use slot_booking.Models.{
  Database, Slot, Resource, SlotStatus, is_held, is_booked, is_blocked, get_slot, get_resource,
  put_slot,
}
use slot_booking.Effects.{
  Services, World, Action, Error, http, Detail, slot_not_found, resource_not_found,
  slot_not_in_resource, resource_not_of_provider, slot_not_in_tenant, resource_inactive,
  slot_unavailable, slot_blocked, invalid_slot_duration, booking_window_violation,
  slot_already_held, ◌>>=◌, ◌>>◌, pure, or_raise, raise_if, utcnow, query, write, minutes, hours,
  days,
}
use slot_booking.Booking.Policy.{min_advance_hours, max_advance_days, default_slot_duration_minutes}
use slot_booking.Booking.Hold.{get_slot_hold_owner}

pub record SlotBookingContext : Type 0 where
  pub slot : Slot
  pub resource : Resource

-- `slot.hold_expires_at and slot.hold_expires_at <= now`
abbrev pub expires_by : Option ℕ → ℕ → Bool
expires_by none now = false
expires_by (some t) now = leb t now

-- `slot.hold_expires_at and slot.hold_expires_at > now`
abbrev pub expires_after : Option ℕ → ℕ → Bool
expires_after none now = false
expires_after (some t) now = ltb now t

abbrev pub reopened : Slot → Slot
reopened slot = record slot { status = SlotStatus.open_; hold_expires_at = none }

abbrev pub hold_has_expired : Slot → ℕ → Bool
hold_has_expired slot now = is_held slot.status && expires_by slot.hold_expires_at now

-- `_normalise_expired_hold`, with the slot as it is then.
unfoldable pub normalise_expired_hold : {s : Services} → Slot → ℕ → Action (World s) Slot
normalise_expired_hold slot now =
    if hold_has_expired slot now
    then (do write (put_slot (reopened slot)); pure (reopened slot))
    else pure slot

-- `hold_owner_id != current_user_id`
abbrev pub is_not_user : Option ℕ → ℕ → Bool
is_not_user none user = true
is_not_user (some owner) user = not (owner == user)

-- `hold_owner_id is not None and hold_owner_id != current_user_id`
abbrev pub is_other : Option ℕ → ℕ → Bool
is_other none user = false
is_other (some owner) user = not (owner == user)

-- `int((slot.ends_at - slot.starts_at).total_seconds() // 60)`, where the slot ends after it starts
abbrev pub duration_minutes : Slot → ℕ
duration_minutes slot = (slot.ends_at - slot.starts_at) / minutes 1

-- Whose the slot is.
unfoldable pub check_ownership :
    {s : Services} → Slot → Resource → ℕ → ℕ → ℕ → Action (World s) (Unit {0})
check_ownership slot resource resource_id provider_id tenant_id = do
  raise_if (not (resource.id == resource_id) || not (slot.resource_id == resource_id))
      (http 400 slot_not_in_resource)
  raise_if (not (resource.provider_id == provider_id)) (http 400 resource_not_of_provider)
  raise_if (not (resource.tenant_id == tenant_id) || not (slot.tenant_id == tenant_id))
      (http 400 slot_not_in_tenant)
  raise_if (not resource.is_active) (http 409 resource_inactive)

-- Whether the slot can be booked at `now`.
unfoldable pub check_schedule : {s : Services} → Slot → ℕ → Action (World s) (Unit {0})
check_schedule slot now = do
  raise_if (is_booked slot.status) (http 409 slot_unavailable)
  raise_if (is_blocked slot.status) (http 409 slot_blocked)
  raise_if (leb slot.ends_at slot.starts_at) (http 422 invalid_slot_duration)
  raise_if
      (leb (duration_minutes slot) 0
        || not (duration_minutes slot % default_slot_duration_minutes == 0))
      (http 422 invalid_slot_duration)
  raise_if
      (ltb slot.starts_at (now + hours min_advance_hours)
        || ltb (now + days max_advance_days) slot.starts_at)
      (http 422 booking_window_violation)

-- Whether another user holds the slot.
unfoldable pub check_holder : {s : Services} → Slot → ℕ → Option ℕ → ℕ → Action (World s) (Unit {0})
check_holder slot now hold_owner_id current_user_id = do
  raise_if (is_other hold_owner_id current_user_id) (http 409 slot_already_held)
  raise_if
      (is_held slot.status
        && (expires_after slot.hold_expires_at now && is_not_user hold_owner_id current_user_id))
      (http 409 slot_already_held)

unfoldable pub validate_slot_booking_request :
    {s : Services} → ℕ → ℕ → ℕ → ℕ → ℕ → Action (World s) SlotBookingContext
unfolding normalise_expired_hold
validate_slot_booking_request slot_id resource_id provider_id tenant_id current_user_id = do
  found ← or_raise (← query (get_slot slot_id)) (http 404 slot_not_found)
  resource ← or_raise (← query (get_resource found.resource_id)) (http 404 resource_not_found)
  check_ownership found resource resource_id provider_id tenant_id
  now ← utcnow
  slot ← normalise_expired_hold found now
  check_schedule slot now
  hold_owner_id ← get_slot_hold_owner slot_id
  check_holder slot now hold_owner_id current_user_id
  pure (record { slot = slot; resource = resource })
