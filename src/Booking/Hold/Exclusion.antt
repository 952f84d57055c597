-- ===== src/Booking/Hold/Exclusion.antt =====
-- One holder of a slot at a time: what the hold in the cache gives its user, and refuses others.
use slot_booking.Base.{
  ℕ, suc, ◌+◌, ◌≤◌, ◌<◌, ◌≡◌, ◌≢◌, sym, none, some, true, false, arith, inl, inr, Bool-cases,
}
use text.Mathlib.TextEquality.{eq_iff}
use slot_booking.Base.Text.{str_eq, str, str-injective, str-nonempty}
use slot_booking.Effects.{Services, CacheLaws, World, ok, err, http, slot_already_held, seconds}
use slot_booking.Booking.Hold.{
  SlotHoldResult, hold_key, hold_owner, hold_slot_with_ttl, released, release_slot_hold,
}

module _ {s : Services} (laws : CacheLaws s) where
  -- While a hold runs, nobody takes the slot: every other request for it is refused, and leaves the
  -- hold as it is.
  pub hold_slot_with_ttl_excludes :
      (slot_id user other ttl ttl' : ℕ) (w w' v : World s) (c : s.Cache) (r : SlotHoldResult)
      → w.cache ≡ some c
      → s.cache_get c (w.clock (suc w.reads)) (hold_key slot_id) ≡ none
      → hold_slot_with_ttl slot_id user ttl w ≡ (ok r, w')
      → v.cache ≡ w'.cache
      → w.clock (suc w.reads) ≤ v.clock (suc v.reads)
      → v.clock (suc v.reads) < w.clock (suc w.reads) + seconds ttl
      → ((hold_slot_with_ttl slot_id other ttl' v).0 ≡ err (http 409 slot_already_held))
        × ((hold_slot_with_ttl slot_id other ttl' v).1.cache ≡ v.cache)
        × (hold_owner s v.cache (v.clock (suc v.reads)) slot_id ≡ s.parse_int (str user))
  unfolding hold_slot_with_ttl hold_owner
  hold_slot_with_ttl_excludes slot_id user other ttl ttl' w w' v c r cached free held same later
        running =
      let there =
        laws.get-set_nx c (w.clock (suc w.reads)) (seconds ttl) (v.clock (suc v.reads))
          (hold_key slot_id) (str user) free later running in
      let kept =
        laws.set_nx_taken
          (s.cache_set_nx c (w.clock (suc w.reads)) (hold_key slot_id) (str user) (seconds ttl)).0
          (v.clock (suc v.reads)) (seconds ttl') (hold_key slot_id) (str other) (str user) there in
      (ground (arith, there, kept), ground (arith, there, kept), ground (arith, there))

  -- Releasing frees the slot for its holder alone: the holder's release deletes the key, and anybody
  -- else's answers no and leaves the cache as it is.
  pub release_slot_hold_holder :
      (slot_id user holder : ℕ) (w : World s) (c : s.Cache)
      → w.cache ≡ some c
      → s.cache_get c (w.clock w.reads) (hold_key slot_id) ≡ some (str holder)
      → let (answer, w') = release_slot_hold slot_id user w in
        (user ≡ holder → (answer ≡ ok true) × ((t : ℕ) → hold_owner s w'.cache t slot_id ≡ none))
        × (user ≢ holder → (answer ≡ ok false) × (w'.cache ≡ w.cache))
  unfolding release_slot_hold released hold_owner
  release_slot_hold_holder slot_id user holder w c cached held =
      let named = str-nonempty holder in
      (
        λ e. (
          ground (arith, eq_iff (str holder) "", eq_iff (str holder) (str user)),
          λ t. ground (
            arith,
            eq_iff (str holder) "",
            eq_iff (str holder) (str user),
            laws.get-delete c t (hold_key slot_id),
          ),
        ),
        λ e. elim (Bool-cases (str_eq (str holder) (str user))) [
          | inl same ↦ absurd (e (sym (str-injective ((eq_iff (str holder) (str user)).0 same))))
          | inr differ ↦ (ground arith, ground arith)
        ],
      )
