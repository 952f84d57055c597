-- ===== src/Api/Slots/Takeover.antt =====
-- What the hold route does to a slot that a pending booking holds already.
use slot_booking.Base.{ℕ, suc, ◌+◌, ◌≤◌, ◌<◌, ◌≡◌, ◌≢◌, inl, inr, some, none, arith}
use slot_booking.Base.Text.{str}
use slot_booking.Models.{Slot, SlotStatus, get_slot}
use slot_booking.Models.Laws.{get_row-put_row_self, get_row-key}
use slot_booking.Effects.{Services, CacheLaws, World, ok, seconds}
use slot_booking.Booking.Hold.{hold_key, hold_owner, hold_slot_with_ttl}
use slot_booking.Booking.Validate.Checks.{Available}
use slot_booking.Booking.Create.{held_slot}
use slot_booking.Api.Slots.{hold_slot}

-- A slot that is held in the database but has no key in the cache can be held again by anybody: the
-- hold is granted and committed with a new expiry, the cache names the new user while it runs, and to
-- the checks of a booking the slot is then the new user's and nobody else's, the booking's owner
-- included.
pub hold_slot_takes_over :
    {s : Services} (laws : CacheLaws s) (reads_back : (n : ℕ) → s.parse_int (str n) ≡ some n)
    (slot_id user : ℕ) (w : World s) (slot : Slot) (c : s.Cache)
    → get_slot slot_id w.db ≡ some slot
    → slot.status ≡ SlotStatus.held
    → w.cache ≡ some c
    → s.cache_get c (w.clock (suc w.reads)) (hold_key slot_id) ≡ none
    → let (r, w') = hold_slot slot_id user w in
      let expires = w.clock w.reads + seconds 600 in
      (r ≡ ok expires)
      × (get_slot slot_id w'.saved ≡ some (held_slot slot expires))
      × ((t : ℕ)
          → w.clock (suc w.reads) ≤ t
          → t < w.clock (suc w.reads) + seconds 600
          → (hold_owner s w'.cache t slot_id ≡ some user)
            × Available (held_slot slot expires) t (hold_owner s w'.cache t slot_id) user
            × ((other : ℕ)
                → other ≢ user
                → ¬ Available (held_slot slot expires) t (hold_owner s w'.cache t slot_id) other))
unfolding hold_slot hold_slot_with_ttl hold_owner
hold_slot_takes_over {s} laws reads_back slot_id user w slot c found held cached free =
    let expires = w.clock w.reads + seconds 600 in
    let granted =
      laws.set_nx_free c (w.clock (suc w.reads)) (seconds 600) (hold_key slot_id) (str user) free in
    let of_id = get_row-key (λ (r : Slot). r.id) slot_id w.db.slots {x = slot} found in
    let replaced =
      get_row-put_row_self (λ (r : Slot). r.id) (held_slot slot expires) slot w.db.slots in
    (
      ground (arith, granted),
      ground (arith, granted, of_id, replaced),
      λ t later running.
          let there =
            laws.get-set_nx c (w.clock (suc w.reads)) (seconds 600) t (hold_key slot_id) (str user)
              free later running in
          let owned : hold_owner s (hold_slot slot_id user w).1.cache t slot_id ≡ some user =
            ground (arith, granted, there, reads_back user) in
          (
            owned,
            (inr owned, λ u e h l. owned),
            λ other ne available. elim available.0 [
              | inl e ↦ ground (arith, owned)
              | inr e ↦ ne (ground (arith, owned))
            ],
          ),
    )
