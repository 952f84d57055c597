-- ===== src/Booking/Validate/Checks.antt =====
-- The three groups of checks of `validate_slot_booking_request`, each with what it means to pass it.
use slot_booking.Base.{
  ℕ, ◌+◌, ◌-◌, ◌/◌, ◌%◌, ◌≤◌, ◌<◌, ◌≡◌, ◌≢◌, ◌⊎◌, inl, inr, refl, true, false, Option, none, some,
  arith, Option-cases,
}
use slot_booking.Models.{Slot, Resource, SlotStatus}
use slot_booking.Effects.{Services, World, ok, minutes, hours, days}
use slot_booking.Booking.Validate.{is_other, check_ownership, check_schedule, check_holder}

is_other_owner :
    (owner : Option ℕ) (user : ℕ)
    → is_other owner user ≡ false
    → (owner ≡ none) ⊎ (owner ≡ some user)
is_other_owner none user h = inl refl
is_other_owner (some o) user h = inr (ground arith)

abbrev pub Owned : Slot → Resource → ℕ → ℕ → ℕ → Type 0
Owned slot resource resource_id provider_id tenant_id =
    (resource.id ≡ resource_id)
    × (slot.resource_id ≡ resource_id)
    × (resource.provider_id ≡ provider_id)
    × (resource.tenant_id ≡ tenant_id)
    × (slot.tenant_id ≡ tenant_id)
    × (resource.is_active ≡ true)

-- Neither booked nor blocked; a positive number of half hours long; and from one hour to ninety
-- days ahead.
abbrev pub Scheduled : Slot → ℕ → Type 0
Scheduled slot now =
    (slot.status ≢ SlotStatus.booked)
    × (slot.status ≢ SlotStatus.blocked)
    × (slot.starts_at < slot.ends_at)
    × (1 ≤ (slot.ends_at - slot.starts_at) / minutes 1)
    × ((slot.ends_at - slot.starts_at) / minutes 1 % 30 ≡ 0)
    × (now + hours 1 ≤ slot.starts_at)
    × (slot.starts_at ≤ now + days 90)

-- Nobody else's in the cache, and the user's own where the slot is held and its hold runs.
abbrev pub Available : Slot → ℕ → Option ℕ → ℕ → Type 0
Available slot now owner user =
    ((owner ≡ none) ⊎ (owner ≡ some user))
    × ((t : ℕ)
        → slot.hold_expires_at ≡ some t
        → slot.status ≡ SlotStatus.held
        → now < t
        → owner ≡ some user)

module _ {s : Services} (w : World s) where
  pub check_ownership_keeps :
      (slot : Slot) (resource : Resource) (resource_id provider_id tenant_id : ℕ)
      → (check_ownership slot resource resource_id provider_id tenant_id w).1 ≡ w
  unfolding check_ownership
  check_ownership_keeps slot resource resource_id provider_id tenant_id = ground arith

  pub check_schedule_keeps : (slot : Slot) (now : ℕ) → (check_schedule slot now w).1 ≡ w
  unfolding check_schedule
  check_schedule_keeps slot now = ground arith

  pub check_holder_keeps :
      (slot : Slot) (now : ℕ) (owner : Option ℕ) (user : ℕ)
      → (check_holder slot now owner user w).1 ≡ w
  unfolding check_holder
  check_holder_keeps slot now owner user = ground arith

  pub check_ownership-Owned :
      (slot : Slot) (resource : Resource) (resource_id provider_id tenant_id : ℕ)
      → (check_ownership slot resource resource_id provider_id tenant_id w).0 ≡ ok tt
      → Owned slot resource resource_id provider_id tenant_id
  unfolding check_ownership
  check_ownership-Owned slot resource resource_id provider_id tenant_id h = ground arith

  pub check_ownership_passes :
      (slot : Slot) (resource : Resource) (resource_id provider_id tenant_id : ℕ)
      → Owned slot resource resource_id provider_id tenant_id
      → check_ownership slot resource resource_id provider_id tenant_id w ≡ (ok tt, w)
  unfolding check_ownership
  check_ownership_passes slot resource resource_id provider_id tenant_id h = ground arith

  pub check_schedule-Scheduled :
      (slot : Slot) (now : ℕ) → (check_schedule slot now w).0 ≡ ok tt → Scheduled slot now
  unfolding check_schedule
  check_schedule-Scheduled slot now h = ground arith

  pub check_schedule_passes :
      (slot : Slot) (now : ℕ) → Scheduled slot now → check_schedule slot now w ≡ (ok tt, w)
  unfolding check_schedule
  check_schedule_passes slot now h = ground arith

  pub check_holder-Available :
      (slot : Slot) (now : ℕ) (owner : Option ℕ) (user : ℕ)
      → (check_holder slot now owner user w).0 ≡ ok tt
      → Available slot now owner user
  unfolding check_holder
  check_holder-Available slot now owner user h =
      (is_other_owner owner user (ground arith), λ t e held late. ground arith)

  pub check_holder_passes :
      (slot : Slot) (now : ℕ) (owner : Option ℕ) (user : ℕ)
      → Available slot now owner user
      → check_holder slot now owner user w ≡ (ok tt, w)
  unfolding check_holder
  check_holder_passes slot now owner user h = elim (Option-cases slot.hold_expires_at) [
    | inl e ↦ ground arith
    | inr (t, e) ↦ ground (arith, h.1 t)
  ]
