-- ===== src/Booking/Generate.antt =====
-- `generate_slots_for_resource` of backend/src/apps/booking/services/booking_service.py. Wall-clock
-- times, like all times, count microseconds from the first midnight of year 1, a Monday.
pub mod Cuts
pub mod Pieces
pub mod Added
use slot_booking.Base.{
  ℕ, zero, suc, ◌+◌, ◌-◌, ◌*◌, ◌/◌, ◌%◌, max, min, String, Bool, true, false, not, ◌&&◌, List, [],
  ◌∷◌, ◌++◌, Option, none, some, map, select, any, leb, ltb, ◌==◌,
}
use slot_booking.Models.{
  Database, Resource, AvailabilityRule, AvailabilityException, Slot, SlotStatus, get_resource,
}
use slot_booking.Effects.{
  Services, World, Action, http, resource_not_found, ◌>>=◌, ◌>>◌, pure, or_raise,
  scalar_one_or_none, query, write, minutes, days,
}

-- What the loops need of the resource and the request.
pub record Window : Type 0 where
  pub resource : Resource
  pub exceptions : List AvailabilityException
  pub start_local : ℕ
  pub end_local : ℕ

-- `ex.starts_at < slot_end_utc and ex.ends_at > cursor_utc and not ex.is_available`
abbrev pub blocks : ℕ → ℕ → AvailabilityException → Bool
blocks starts ends ex = ltb ex.starts_at ends && (ltb starts ex.ends_at && not ex.is_available)

abbrev pub same_times : ℕ → ℕ → ℕ → Slot → Bool
same_times resource_id starts ends x =
    x.resource_id == resource_id && (x.starts_at == starts && x.ends_at == ends)

abbrev pub generated_slot : Resource → ℕ → ℕ → ℕ → Slot
generated_slot resource id starts ends = record {
  id = id;
  resource_id = resource.id;
  tenant_id = resource.tenant_id;
  starts_at = starts;
  ends_at = ends;
  status = SlotStatus.open_;
  hold_expires_at = none;
}

-- `if existing.scalar_one_or_none() is None:`, with the number of slots created.
abbrev pub add_unless : {s : Services} → Resource → ℕ → ℕ → Option Slot → Action (World s) ℕ
add_unless resource starts ends (some x) = pure 0
add_unless {s} resource starts ends none = do
  slots ← query (λ db. db.slots)
  let slot = generated_slot resource (s.new_id (map (λ (x : Slot). x.id) slots)) starts ends
  write (λ db. record db { slots = db.slots ++ slot ∷ [] })
  pure 1

-- One round of the inner loop, at UTC times.
unfoldable pub offer_slot : {s : Services} → Window → ℕ → ℕ → Action (World s) ℕ
offer_slot v starts ends = elim (any (blocks starts ends) v.exceptions) [
  | true ↦ pure 0
  | false ↦ do
    existing ←
        scalar_one_or_none (← query (λ db. select (same_times v.resource.id starts ends) db.slots))
    add_unless v.resource starts ends existing
]

-- `none` where a loop ran out of fuel.
abbrev pub add : Option ℕ → Option ℕ → Option ℕ
add none n = none
add (some m) none = none
add (some m) (some n) = some (m + n)

-- `while cursor + timedelta(minutes=duration) <= limit`
unfoldable pub cut_window : {s : Services} → ℕ → Window → ℕ → ℕ → ℕ → Action (World s) (Option ℕ)
cut_window zero v duration limit cursor = pure none
cut_window {s} (suc fuel) v duration limit cursor =
    let rest = cut_window {s = s} fuel v duration limit (cursor + minutes duration) in
    elim (leb (cursor + minutes duration) limit) [
      | true ↦ do
        n ←
            offer_slot v (s.to_utc v.resource.timezone cursor)
              (s.to_utc v.resource.timezone (cursor + minutes duration))
        m ← rest
        pure (add (some n) m)
      | false ↦ pure (some 0)
    ]

-- A rule is at most a day long, and a slot at least a minute.
abbrev pub rule_fuel : ℕ
rule_fuel = 1441

unfoldable pub cut_rule :
    {s : Services} → Window → ℕ → AvailabilityRule → Action (World s) (Option ℕ)
cut_rule v current rule =
    cut_window rule_fuel v rule.slot_duration_min
      (min (current + minutes rule.end_minute) v.end_local)
      (max (current + minutes rule.start_minute) v.start_local)

-- `for rule in day_rules`
unfoldable pub cut_rules :
    {s : Services} → Window → ℕ → List AvailabilityRule → Action (World s) (Option ℕ)
cut_rules v current [] = pure (some 0)
cut_rules v current (rule ∷ rules) = do
  n ← cut_rule v current rule
  m ← cut_rules v current rules
  pure (add n m)

-- `current.weekday()`
abbrev pub weekday : ℕ → ℕ
weekday t = t / days 1 % 7

-- `while current < end_local`
unfoldable pub cut_days :
    {s : Services} → ℕ → Window → List AvailabilityRule → ℕ → Action (World s) (Option ℕ)
cut_days zero v rules current = pure none
cut_days {s} (suc fuel) v rules current =
    let rest = cut_days {s = s} fuel v rules (current + days 1) in
    elim (ltb current v.end_local) [
      | true ↦ do
        n ←
            cut_rules v current
              (select (λ (r : AvailabilityRule). r.day_of_week == weekday current) rules)
        m ← rest
        pure (add n m)
      | false ↦ pure (some 0)
    ]

-- One round for each midnight before the end, and one to see that it is reached.
abbrev pub day_fuel : ℕ → ℕ → ℕ
day_fuel midnight end_local = suc (suc ((end_local - midnight) / days 1))

abbrev pub rules_of : ℕ → Database → List AvailabilityRule
rules_of resource_id db =
    select (λ (r : AvailabilityRule). r.resource_id == resource_id && r.is_active) db.rules

abbrev pub exceptions_of : ℕ → Database → List AvailabilityException
exceptions_of resource_id db =
    select (λ (e : AvailabilityException). e.resource_id == resource_id) db.exceptions

abbrev pub window_of : Services → Resource → ℕ → Database → ℕ → ℕ → Window
window_of s resource resource_id db window_start window_end = record {
  resource = resource;
  exceptions = exceptions_of resource_id db;
  start_local = s.to_local resource.timezone window_start;
  end_local = s.to_local resource.timezone window_end;
}

abbrev pub midnight_before : ℕ → ℕ
midnight_before t = t - t % days 1

-- `none` stands for a loop that ran out of fuel.
unfoldable pub generate_slots_for_resource :
    {s : Services} → ℕ → ℕ → ℕ → Action (World s) (Option ℕ)
generate_slots_for_resource {s} resource_id window_start window_end = do
  resource ← or_raise (← query (get_resource resource_id)) (http 404 resource_not_found)
  rules ← query (rules_of resource_id)
  v ← query (λ db. window_of s resource resource_id db window_start window_end)
  let midnight = midnight_before v.start_local
  cut_days (day_fuel midnight v.end_local) v rules midnight
