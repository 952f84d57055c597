-- ===== src/Api/Slots.antt =====
-- backend/src/apps/booking/api/v1/slots.py.
pub mod Takeover
use slot_booking.Base.{
  ℕ, Bool, true, false, not, ◌&&◌, List, [], ◌∷◌, Option, none, some, map, select, any, leb, ◌==◌,
  if◌then◌else◌,
}
use slot_booking.Models.{
  Database, Slot, SlotStatus, Booking, is_unavailable, is_held, order_by, get_slot, get_booking,
  put_slot,
}
use slot_booking.Effects.{
  Services, World, Action, http, slot_not_found, slot_unavailable, booking_not_found, ◌>>=◌, ◌>>◌,
  pure, or_raise, raise_if, utcnow, query, write, commit,
}
use slot_booking.Booking.Hold.{hold_slot_with_ttl, release_slot_hold}
use slot_booking.Booking.Validate.{reopened, hold_has_expired}
use slot_booking.Booking.Create.{held_slot}
use slot_booking.Booking.Generate.{generate_slots_for_resource}
use slot_booking.Booking.Cancel.{cancel_booking}

-- `Slot.resource_id == …, Slot.starts_at >= from_ts, Slot.ends_at <= to_ts`, by their starts
abbrev pub slots_between : ℕ → ℕ → ℕ → Database → List Slot
slots_between resource_id from_ts to_ts db =
    order_by (λ (x : Slot). x.starts_at)
      (select
        (λ (x : Slot).
          x.resource_id == resource_id && (leb from_ts x.starts_at && leb x.ends_at to_ts))
        db.slots)

-- The loop over the listed slots: an expired hold is dropped.
abbrev pub drop_expired : ℕ → List Slot → Database → Database
drop_expired now [] db = db
drop_expired now (x ∷ items) db =
    drop_expired now items (if hold_has_expired x now then put_slot (reopened x) db else db)

abbrev pub listed : ℕ → Slot → Slot
listed now x = if hold_has_expired x now then reopened x else x

unfoldable pub list_slots : {s : Services} → ℕ → ℕ → ℕ → Action (World s) (List Slot)
list_slots resource_id from_ts to_ts = do
  items ← query (slots_between resource_id from_ts to_ts)
  now ← utcnow
  write (drop_expired now items)
  if any (λ x. hold_has_expired x now) items then commit else pure tt
  pure (map (listed now) items)

-- `if slot:`, the second look at it.
abbrev pub mark_held : {s : Services} → ℕ → Option Slot → Action (World s) (Unit {0})
mark_held expires none = pure tt
mark_held expires (some slot) = do
  raise_if (is_unavailable slot.status) (http 409 slot_unavailable)
  write (put_slot (held_slot slot expires))
  commit

-- `none` where the generation ran out of fuel.
unfoldable pub generate_slots : {s : Services} → ℕ → ℕ → ℕ → Action (World s) (Option ℕ)
generate_slots resource_id from_ts to_ts = do
  created ← generate_slots_for_resource resource_id from_ts to_ts
  commit
  pure created

unfoldable pub hold_slot : {s : Services} → ℕ → ℕ → Action (World s) ℕ
hold_slot slot_id user_id = do
  slot ← or_raise (← query (get_slot slot_id)) (http 404 slot_not_found)
  raise_if (is_unavailable slot.status) (http 409 slot_unavailable)
  result ← hold_slot_with_ttl slot_id user_id 600
  found ← query (get_slot result.slot_id)
  mark_held result.hold_expires_at found
  pure result.hold_expires_at

-- `if slot and slot.status == SlotStatus.HELD:`
abbrev pub reopen : {s : Services} → Option Slot → Action (World s) (Unit {0})
reopen none = pure tt
reopen (some slot) =
    if is_held slot.status then (do write (put_slot (reopened slot)); commit) else pure tt

unfoldable pub release_slot : {s : Services} → ℕ → ℕ → Action (World s) Bool
release_slot slot_id user_id = do
  done ← release_slot_hold slot_id user_id
  if done then (do reopen (← query (get_slot slot_id))) else pure tt
  pure done

unfoldable pub cancel_booking_route : {s : Services} → ℕ → ℕ → Action (World s) Booking
cancel_booking_route booking_id user_id = do
  booking ← cancel_booking booking_id user_id
  commit
  pure booking

-- `tenant_id and booking.tenant_id != …`
abbrev pub of_other_tenant : Option ℕ → Booking → Bool
of_other_tenant none b = false
of_other_tenant (some tenant_id) b = not (b.tenant_id == tenant_id)

unfoldable pub get_own_booking : {s : Services} → ℕ → ℕ → Option ℕ → Action (World s) Booking
get_own_booking booking_id user_id tenant_id = do
  booking ← or_raise (← query (get_booking booking_id)) (http 404 booking_not_found)
  raise_if (not (booking.user_id == user_id)) (http 404 booking_not_found)
  raise_if (of_other_tenant tenant_id booking) (http 404 booking_not_found)
  pure booking
