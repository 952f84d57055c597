-- ===== src/Api/Availability.antt =====
-- backend/src/apps/booking/api/v1/availability.py, with the bounds that
-- backend/src/apps/booking/schemas/booking.py sets on its payloads.
pub mod Order
use slot_booking.Base.{
  ℕ, ◌≤◌, ◌<◌, ◌≡◌, String, Bool, true, false, not, List, [], ◌∷◌, ◌++◌, Option, none, some, map,
  select, leb, ltb, ◌==◌, if◌then◌else◌,
}
use slot_booking.Models.{
  Database, Resource, AvailabilityRule, AvailabilityException, get_row, put_row, remove_row,
  order_by, get_resource,
}
use slot_booking.Effects.{
  Services, World, Action, http, resource_not_found, resource_not_in_tenant, rule_not_found,
  exception_not_found, window_order, exception_order, ◌>>=◌, ◌>>◌, pure, or_raise, raise_if, query,
  write, commit,
}

pub record AvailabilityRuleCreate : Type 0 where
  pub tenant_id : ℕ
  pub day_of_week : ℕ
  pub start_minute : ℕ
  pub end_minute : ℕ
  pub slot_duration_min : ℕ
  pub valid_from : Option ℕ
  pub valid_to : Option ℕ
  pub is_active : Bool

pub record AvailabilityRuleUpdate : Type 0 where
  pub day_of_week : Option ℕ
  pub start_minute : Option ℕ
  pub end_minute : Option ℕ
  pub slot_duration_min : Option ℕ
  pub valid_from : Option ℕ
  pub valid_to : Option ℕ
  pub is_active : Option Bool

pub record AvailabilityExceptionCreate : Type 0 where
  pub tenant_id : ℕ
  pub starts_at : ℕ
  pub ends_at : ℕ
  pub is_available : Bool
  pub reason : String

pub record AvailabilityExceptionUpdate : Type 0 where
  pub starts_at : Option ℕ
  pub ends_at : Option ℕ
  pub is_available : Option Bool
  pub reason : Option String

-- `updates.get(field, old)`, and `setattr` where the update names the field.
abbrev pub or_old {ℓ} : {A : Type ℓ} → Option A → A → A
or_old none old = old
or_old (some new) old = new

-- The same for a field that may itself be missing.
abbrev pub or_older {ℓ} : {A : Type ℓ} → Option A → Option A → Option A
or_older none old = old
or_older (some new) old = some new

abbrev pub get_rule : ℕ → Database → Option AvailabilityRule
get_rule k db = get_row (λ (r : AvailabilityRule). r.id) k db.rules

abbrev pub get_exception : ℕ → Database → Option AvailabilityException
get_exception k db = get_row (λ (r : AvailabilityException). r.id) k db.exceptions

unfoldable pub get_resource_or_404 : {s : Services} → ℕ → Action (World s) Resource
get_resource_or_404 resource_id = do
  or_raise (← query (get_resource resource_id)) (http 404 resource_not_found)

abbrev pub validate_rule_bounds : {s : Services} → ℕ → ℕ → Action (World s) (Unit {0})
validate_rule_bounds start_minute end_minute =
    raise_if (leb end_minute start_minute) (http 422 window_order)

abbrev pub validate_exception_bounds : {s : Services} → ℕ → ℕ → Action (World s) (Unit {0})
validate_exception_bounds starts_at ends_at =
    raise_if (leb ends_at starts_at) (http 422 exception_order)

-- `ORDER BY day_of_week, start_minute`.
unfoldable pub list_availability_rules :
    {s : Services} → ℕ → Action (World s) (List AvailabilityRule)
unfolding get_resource_or_404
list_availability_rules resource_id = do
  resource ← get_resource_or_404 resource_id
  query (λ db.
      order_by (λ (r : AvailabilityRule). r.day_of_week)
        (order_by (λ (r : AvailabilityRule). r.start_minute)
          (select (λ (r : AvailabilityRule). r.resource_id == resource.id) db.rules)))

abbrev pub new_rule : AvailabilityRuleCreate → Resource → ℕ → AvailabilityRule
new_rule p resource id = record {
  id = id;
  resource_id = resource.id;
  tenant_id = p.tenant_id;
  day_of_week = p.day_of_week;
  start_minute = p.start_minute;
  end_minute = p.end_minute;
  slot_duration_min = p.slot_duration_min;
  valid_from = p.valid_from;
  valid_to = p.valid_to;
  is_active = p.is_active;
}

unfoldable pub create_availability_rule :
    {s : Services} → ℕ → AvailabilityRuleCreate → Action (World s) AvailabilityRule
unfolding get_resource_or_404
create_availability_rule {s} resource_id p = do
  resource ← get_resource_or_404 resource_id
  raise_if (not (resource.tenant_id == p.tenant_id)) (http 400 resource_not_in_tenant)
  validate_rule_bounds p.start_minute p.end_minute
  rules ← query (λ db. db.rules)
  let rule = new_rule p resource (s.new_id (map (λ (r : AvailabilityRule). r.id) rules))
  write (λ db. record db { rules = db.rules ++ rule ∷ [] })
  commit
  pure rule

abbrev pub updated_rule : AvailabilityRule → AvailabilityRuleUpdate → AvailabilityRule
updated_rule rule p = record rule {
  day_of_week = or_old p.day_of_week rule.day_of_week;
  start_minute = or_old p.start_minute rule.start_minute;
  end_minute = or_old p.end_minute rule.end_minute;
  slot_duration_min = or_old p.slot_duration_min rule.slot_duration_min;
  valid_from = or_older p.valid_from rule.valid_from;
  valid_to = or_older p.valid_to rule.valid_to;
  is_active = or_old p.is_active rule.is_active;
}

unfoldable pub update_availability_rule :
    {s : Services} → ℕ → AvailabilityRuleUpdate → Action (World s) AvailabilityRule
update_availability_rule rule_id p = do
  rule ← or_raise (← query (get_rule rule_id)) (http 404 rule_not_found)
  validate_rule_bounds (or_old p.start_minute rule.start_minute)
      (or_old p.end_minute rule.end_minute)
  let updated = updated_rule rule p
  write (λ db. record db { rules = put_row (λ (r : AvailabilityRule). r.id) updated db.rules })
  commit
  pure updated

unfoldable pub delete_availability_rule : {s : Services} → ℕ → Action (World s) (Unit {0})
delete_availability_rule rule_id = do
  rule ← or_raise (← query (get_rule rule_id)) (http 404 rule_not_found)
  write (λ db. record db { rules = remove_row (λ (r : AvailabilityRule). r.id) rule.id db.rules })
  commit

unfoldable pub list_availability_exceptions :
    {s : Services} → ℕ → Action (World s) (List AvailabilityException)
unfolding get_resource_or_404
list_availability_exceptions resource_id = do
  resource ← get_resource_or_404 resource_id
  query (λ db.
      order_by (λ (r : AvailabilityException). r.starts_at)
        (select (λ (r : AvailabilityException). r.resource_id == resource.id) db.exceptions))

abbrev pub new_exception : AvailabilityExceptionCreate → Resource → ℕ → AvailabilityException
new_exception p resource id = record {
  id = id;
  resource_id = resource.id;
  tenant_id = p.tenant_id;
  starts_at = p.starts_at;
  ends_at = p.ends_at;
  is_available = p.is_available;
  reason = p.reason;
}

unfoldable pub create_availability_exception :
    {s : Services} → ℕ → AvailabilityExceptionCreate → Action (World s) AvailabilityException
unfolding get_resource_or_404
create_availability_exception {s} resource_id p = do
  resource ← get_resource_or_404 resource_id
  raise_if (not (resource.tenant_id == p.tenant_id)) (http 400 resource_not_in_tenant)
  validate_exception_bounds p.starts_at p.ends_at
  rows ← query (λ db. db.exceptions)
  let row = new_exception p resource (s.new_id (map (λ (r : AvailabilityException). r.id) rows))
  write (λ db. record db { exceptions = db.exceptions ++ row ∷ [] })
  commit
  pure row

abbrev pub updated_exception :
    AvailabilityException → AvailabilityExceptionUpdate → AvailabilityException
updated_exception row p = record row {
  starts_at = or_old p.starts_at row.starts_at;
  ends_at = or_old p.ends_at row.ends_at;
  is_available = or_old p.is_available row.is_available;
  reason = or_old p.reason row.reason;
}

unfoldable pub update_availability_exception :
    {s : Services} → ℕ → AvailabilityExceptionUpdate → Action (World s) AvailabilityException
update_availability_exception exception_id p = do
  row ← or_raise (← query (get_exception exception_id)) (http 404 exception_not_found)
  validate_exception_bounds (or_old p.starts_at row.starts_at) (or_old p.ends_at row.ends_at)
  let updated = updated_exception row p
  write (λ db. record db {
    exceptions = put_row (λ (r : AvailabilityException). r.id) updated db.exceptions;
  })
  commit
  pure updated

unfoldable pub delete_availability_exception : {s : Services} → ℕ → Action (World s) (Unit {0})
delete_availability_exception exception_id = do
  row ← or_raise (← query (get_exception exception_id)) (http 404 exception_not_found)
  write (λ db. record db {
    exceptions = remove_row (λ (r : AvailabilityException). r.id) row.id db.exceptions;
  })
  commit
