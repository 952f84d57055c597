-- ===== src/Booking/Hold.antt =====
-- `hold_slot_with_ttl`, `get_slot_hold_owner` and `release_slot_hold` of
-- backend/src/apps/booking/services/booking_service.py.
pub mod Exclusion
use slot_booking.Base.{
  ℕ, ◌+◌, ◌/◌, String, Bool, true, false, not, ◌&&◌, Option, none, some, if◌then◌else◌,
}
use slot_booking.Base.Text.{str_eq, str, ◌+++◌}
use slot_booking.Effects.{
  Services, World, Action, ok, http, slot_already_held, ◌>>=◌, ◌>>◌, pure, gets, raise_if, utcnow,
  seconds,
}
use slot_booking.Booking.Policy.{default_hold_expiry}

pub record SlotHoldResult : Type 0 where
  pub slot_id : ℕ
  pub hold_expires_at : ℕ

unfoldable pub hold_key : ℕ → String
hold_key slot_id = "booking:slot-hold:" +++ str slot_id

-- `int(current_holder)`, and `None` for no holder and for a text that is no number
abbrev pub holder_of : (s : Services) → Option String → Option ℕ
holder_of s none = none
holder_of s (some text) = s.parse_int text

-- `current_holder and str(current_holder) == str(holder_user_id)`
abbrev pub is_holder : Option String → ℕ → Bool
is_holder none user = false
is_holder (some text) user = not (str_eq text "") && str_eq text (str user)

-- The holder of a slot at a time, from the cache.
unfoldable pub hold_owner : (s : Services) → Option s.Cache → ℕ → ℕ → Option ℕ
hold_owner s none now slot_id = none
hold_owner s (some c) now slot_id = holder_of s (s.cache_get c now (hold_key slot_id))

-- What `release_slot_hold` answers and leaves in the cache: only its holder's release deletes a key.
unfoldable pub released : (s : Services) → Option s.Cache → ℕ → ℕ → ℕ → Bool × Option s.Cache
released s none now slot_id holder_user_id = (true, none)
released s (some c) now slot_id holder_user_id =
    if is_holder (s.cache_get c now (hold_key slot_id)) holder_user_id
    then (true, some (s.cache_delete c (hold_key slot_id)))
    else (false, some c)

module _ {s : Services} where
  unfoldable pub get_slot_hold_owner : ℕ → Action (World s) (Option ℕ)
  get_slot_hold_owner slot_id w = (ok (hold_owner s w.cache (w.clock w.reads) slot_id), w)

  -- `redis.set(key, str(user), ex=ttl, nx=True)`, at the time of the call
  abbrev set_hold : s.Cache → ℕ → ℕ → ℕ → Action (World s) Bool
  set_hold c slot_id holder_user_id ttl_seconds w =
      let (c', success) =
        s.cache_set_nx c (w.clock w.reads) (hold_key slot_id) (str holder_user_id)
          (seconds ttl_seconds) in
      (ok success, record w { cache = some c' })

  hold_in : Option s.Cache → ℕ → ℕ → ℕ → Action (World s) SlotHoldResult
  hold_in none slot_id holder_user_id ttl_seconds = do
    hold_expires_at ← default_hold_expiry (ttl_seconds / 60)
    pure (record { slot_id = slot_id; hold_expires_at = hold_expires_at })
  hold_in (some c) slot_id holder_user_id ttl_seconds = do
    now ← utcnow
    success ← set_hold c slot_id holder_user_id ttl_seconds
    raise_if (not success) (http 409 slot_already_held)
    pure (record { slot_id = slot_id; hold_expires_at = now + seconds ttl_seconds })

  unfoldable pub hold_slot_with_ttl : ℕ → ℕ → ℕ → Action (World s) SlotHoldResult
  unfolding hold_in
  hold_slot_with_ttl slot_id holder_user_id ttl_seconds = do
    hold_in (← gets (λ (w : World s). w.cache)) slot_id holder_user_id ttl_seconds

  unfoldable pub release_slot_hold : ℕ → ℕ → Action (World s) Bool
  release_slot_hold slot_id holder_user_id w =
      let (done, cache) = released s w.cache (w.clock w.reads) slot_id holder_user_id in
      (ok done, record w { cache = cache })
