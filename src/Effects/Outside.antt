-- ===== src/Effects/Outside.antt =====
-- What the handlers use and the repository does not implement, as a parameter of the model: the
-- Redis client, the float arithmetic of a percentage, the database's sequence, Python's `int` on a
-- text, and the zone database. The laws of each are hypotheses of the theorems that need them.
use slot_booking.Base.{
  ℕ, ◌+◌, ◌≡◌, ◌≢◌, ◌≤◌, ◌<◌, String, Bool, true, false, List, Option, none, some,
}
use slot_booking.Models.{Database}

pub record Services : Type 1 where
  pub Cache : Type 0
  -- `await redis.get(key)`, at a time
  pub cache_get : Cache → ℕ → String → Option String
  -- `await redis.set(key, value, ex=ttl, nx=True)`, at a time, with the ttl in microseconds
  pub cache_set_nx : Cache → ℕ → String → String → ℕ → Cache × Bool
  -- `await redis.delete(key)`
  pub cache_delete : Cache → String → Cache
  -- `int(amount * (percentage / 100))`, of a float's bit pattern
  pub percentage_of : ℕ → ℕ → ℕ
  -- the key that the database gives a new row, from the keys in use
  pub new_id : List ℕ → ℕ
  -- `int(text)`, with `none` for `ValueError`
  pub parse_int : String → Option ℕ
  -- `t.astimezone(ZoneInfo(zone))` as wall-clock time
  pub to_local : String → ℕ → ℕ
  -- the UTC time of a wall-clock time in a zone, the first of two where the clock is set back; where
  -- the clock is changed, a later wall-clock time may be earlier in UTC
  pub to_utc : String → ℕ → ℕ

-- What Redis documents of `GET`, `SET … EX … NX` and `DEL`.
pub record CacheLaws (s : Services) : Type 0 where
  pub set_nx_free :
      (c : s.Cache) (now ttl : ℕ) (k v : String)
      → s.cache_get c now k ≡ none
      → (s.cache_set_nx c now k v ttl).1 ≡ true
  pub get-set_nx :
      (c : s.Cache) (now ttl t : ℕ) (k v : String)
      → s.cache_get c now k ≡ none
      → now ≤ t
      → t < now + ttl
      → s.cache_get (s.cache_set_nx c now k v ttl).0 t k ≡ some v
  pub set_nx_taken :
      (c : s.Cache) (now ttl : ℕ) (k v u : String)
      → s.cache_get c now k ≡ some u
      → s.cache_set_nx c now k v ttl ≡ (c, false)
  pub get-delete : (c : s.Cache) (t : ℕ) (k : String) → s.cache_get (s.cache_delete c k) t k ≡ none
  pub get-delete_other :
      (c : s.Cache) (t : ℕ) (k j : String)
      → j ≢ k
      → s.cache_get (s.cache_delete c k) t j ≡ s.cache_get c t j

-- The ways by which a notification goes out.
pub data Channel : Type 0 where
  websocket email push sms : Channel

-- `db` is the session's view, `saved` what is committed. `cache` is `none` where
-- `RedisCache.get_client()` gives no client. The clock gives a time for each reading.
-- `outbox` lists the notifications handed to a channel, by their keys.
pub record World (s : Services) : Type 0 where
  pub db : Database
  pub saved : Database
  pub cache : Option s.Cache
  pub clock : ℕ → ℕ
  pub reads : ℕ
  pub outbox : List (Channel × ℕ)

-- Time does not run backwards.
abbrev pub IsMonotone : {s : Services} → World s → Type 0
IsMonotone w = (n m : ℕ) → n ≤ m → w.clock n ≤ w.clock m
