-- ===== src/Booking/Validate/Rules.antt =====
-- When `validate_slot_booking_request` lets a booking through.
use slot_booking.Base.{ℕ, suc, ◌≡◌, ap, Option, some, inl, inr, arith, Option-cases, if◌then◌else◌}
use slot_booking.Models.{Slot, Resource, get_slot, get_resource, put_slot}
use slot_booking.Effects.{Services, World, ok}
use slot_booking.Booking.Hold.{hold_owner, get_slot_hold_owner}
use slot_booking.Booking.Validate.{
  SlotBookingContext, reopened, hold_has_expired, check_ownership, check_schedule, check_holder,
  validate_slot_booking_request,
}
use slot_booking.Booking.Validate.Checks.{
  Owned, Scheduled, Available, check_ownership_keeps, check_schedule_keeps, check_holder_keeps,
  check_ownership-Owned, check_ownership_passes, check_schedule-Scheduled, check_schedule_passes,
  check_holder-Available, check_holder_passes,
}

-- The rules of a booking: the slot, its resource, the ids of the request, the time, and who holds
-- the slot in the cache.
pub record IsBookable (slot : Slot) (resource : Resource)
    (resource_id provider_id tenant_id user now : ℕ) (owner : Option ℕ) : Type 0 where
  pub owned : Owned slot resource resource_id provider_id tenant_id
  pub scheduled : Scheduled slot now
  pub available : Available slot now owner user

-- The slot as the request finds it, an expired hold dropped.
abbrev pub current_slot : Slot → ℕ → Slot
current_slot slot now = if hold_has_expired slot now then reopened slot else slot

-- The session after the request: at most the slot's expired hold is dropped.
abbrev pub after_check : {s : Services} → World s → Slot → World s
after_check w slot = record w {
  db = if hold_has_expired slot (w.clock w.reads) then put_slot (reopened slot) w.db else w.db;
  reads = suc w.reads;
}

-- Dropping a hold does not change whose the slot is.
current_slot-Owned :
    (slot : Slot) (now : ℕ) (resource : Resource) (resource_id provider_id tenant_id : ℕ)
    → Owned slot resource resource_id provider_id tenant_id
    → Owned (current_slot slot now) resource resource_id provider_id tenant_id
current_slot-Owned slot now resource resource_id provider_id tenant_id h = ground arith

-- What a request went through that passed, with the slot and the resource that it found.
module _ {s : Services} (slot_id resource_id provider_id tenant_id user : ℕ) (w w' : World s)
    (c : SlotBookingContext) (slot : Slot) (resource : Resource)
    (passed : validate_slot_booking_request slot_id resource_id provider_id tenant_id user w
      ≡ (ok c, w'))
    (e : get_slot slot_id w.db ≡ some slot)
    (f : get_resource slot.resource_id w.db ≡ some resource) where
  passed_checks :
      let now = w.clock w.reads in
      let checked = after_check w slot in
      ((check_ownership slot resource resource_id provider_id tenant_id w).0 ≡ ok tt)
      × ((check_schedule (current_slot slot now) now checked).0 ≡ ok tt)
      × ((check_holder
            (current_slot slot now)
            now
            (hold_owner s w.cache (w.clock (suc w.reads)) slot_id)
            user
            checked).0
          ≡ ok tt)
      × (c ≡ record { slot = current_slot slot now; resource = resource })
      × (w' ≡ checked)
  unfolding validate_slot_booking_request get_slot_hold_owner
  passed_checks =
      let now = w.clock w.reads in
      let checked = after_check w slot in
      ground (
        arith,
        check_ownership_keeps w slot resource resource_id provider_id tenant_id,
        check_schedule_keeps checked (current_slot slot now) now,
        check_holder_keeps checked (current_slot slot now) now
            (hold_owner s w.cache (w.clock (suc w.reads)) slot_id) user,
      )

  found_IsBookable :
      let now = w.clock w.reads in
      IsBookable
        (current_slot slot now)
        resource
        resource_id
        provider_id
        tenant_id
        user
        now
        (hold_owner s w.cache (w.clock (suc w.reads)) slot_id)
  found_IsBookable =
      let now = w.clock w.reads in
      let checked = after_check w slot in
      record {
        owned = current_slot-Owned slot now resource resource_id provider_id tenant_id (
            check_ownership-Owned w slot resource resource_id provider_id tenant_id
              passed_checks.0);
        scheduled = check_schedule-Scheduled checked (current_slot slot now) now passed_checks.1;
        available =
            check_holder-Available checked (current_slot slot now) now _ user passed_checks.2;
      }

-- A request that passes has found the slot and its resource, and they and the cache meet every rule
-- of a booking at the time of the request; the slot that it hands on has no expired hold.
pub validate_slot_booking_request-IsBookable :
    {s : Services} (slot_id resource_id provider_id tenant_id user : ℕ) (w w' : World s)
    (c : SlotBookingContext)
    → validate_slot_booking_request slot_id resource_id provider_id tenant_id user w ≡ (ok c, w')
    → let now = w.clock w.reads in
      (slot : Slot) × (get_slot slot_id w.db ≡ some slot)
      × (get_resource slot.resource_id w.db ≡ some c.resource)
      × (c.slot ≡ current_slot slot now)
      × (w' ≡ after_check w slot)
      × IsBookable c.slot c.resource resource_id provider_id tenant_id user now
          (hold_owner s w.cache (w.clock (suc w.reads)) slot_id)
unfolding validate_slot_booking_request get_slot_hold_owner
validate_slot_booking_request-IsBookable {s} slot_id resource_id provider_id tenant_id user w w' c
      h =
    elim (Option-cases (get_slot slot_id w.db)) [
      | inl e ↦ absurd (ground arith)
      | inr (slot, e) ↦ elim (Option-cases (get_resource slot.resource_id w.db)) [
        | inl f ↦ absurd (ground arith)
        | inr (resource, f) ↦
            let p =
              passed_checks slot_id resource_id provider_id tenant_id user w w' c slot resource h e
                f in
            (
              slot,
              e,
              rw (ap (λ (d : SlotBookingContext). d.resource) p.3) f,
              ap (λ (d : SlotBookingContext). d.slot) p.3,
              p.4,
              rw p.3 (
                  found_IsBookable slot_id resource_id provider_id tenant_id user w w' c slot
                    resource h e f),
            )
      ]
    ]

-- And a request that meets every rule passes: the checks refuse nothing else.
pub validate_slot_booking_request_complete :
    {s : Services} (slot_id resource_id provider_id tenant_id user : ℕ) (w : World s) (slot : Slot)
    (resource : Resource)
    → get_slot slot_id w.db ≡ some slot
    → get_resource slot.resource_id w.db ≡ some resource
    → let now = w.clock w.reads in
      IsBookable
        (current_slot slot now)
        resource
        resource_id
        provider_id
        tenant_id
        user
        now
        (hold_owner s w.cache (w.clock (suc w.reads)) slot_id)
      → validate_slot_booking_request slot_id resource_id provider_id tenant_id user w ≡ (
        ok (record { slot = current_slot slot (w.clock w.reads); resource = resource }),
        after_check w slot,
      )
unfolding validate_slot_booking_request get_slot_hold_owner
validate_slot_booking_request_complete {s} slot_id resource_id provider_id tenant_id user w slot
      resource e f b =
    let now = w.clock w.reads in
    let checked = after_check w slot in
    ground (
      arith,
      check_ownership_passes w slot resource resource_id provider_id tenant_id,
      check_schedule_passes checked (current_slot slot now) now b.scheduled,
      check_holder_passes checked (current_slot slot now) now
          (hold_owner s w.cache (w.clock (suc w.reads)) slot_id) user b.available,
    )
