-- ===== src/Api/Waitlist.antt =====
-- backend/src/apps/booking/api/v1/waitlist.py.
pub mod Own
use slot_booking.Base.{
  ℕ, Bool, true, false, not, List, [], ◌∷◌, ◌++◌, Option, none, some, map, select, ◌==◌,
}
use mathlib.Core.List.{reverse}
use slot_booking.Models.{Database, WaitlistEntry, get_entry, put_entry, remove_row, order_by}
use slot_booking.Effects.{
  Services, World, Action, http, waitlist_entry_not_found, ◌>>=◌, ◌>>◌, pure, or_raise, raise_if,
  utcnow, query, write, commit,
}
use slot_booking.Api.Availability.{or_old}

pub record WaitlistCreate : Type 0 where
  pub tenant_id : ℕ
  pub resource_id : ℕ
  pub desired_start_at : ℕ
  pub desired_end_at : ℕ

pub record WaitlistUpdate : Type 0 where
  pub desired_start_at : Option ℕ
  pub desired_end_at : Option ℕ
  pub is_active : Option Bool

-- `ORDER BY id DESC`
unfoldable pub list_waitlist : {s : Services} → ℕ → Action (World s) (List WaitlistEntry)
list_waitlist user = query (λ db. reverse (
    order_by (λ (e : WaitlistEntry). e.id)
      (select (λ (e : WaitlistEntry). e.user_id == user) db.waitlist)))

abbrev pub new_entry : WaitlistCreate → ℕ → ℕ → ℕ → WaitlistEntry
new_entry p user id now = record {
  id = id;
  tenant_id = p.tenant_id;
  resource_id = p.resource_id;
  user_id = user;
  desired_start_at = p.desired_start_at;
  desired_end_at = p.desired_end_at;
  is_active = true;
  created_at = now;
}

unfoldable pub create_waitlist_entry :
    {s : Services} → WaitlistCreate → ℕ → Action (World s) WaitlistEntry
create_waitlist_entry {s} p user = do
  now ← utcnow
  rows ← query (λ db. db.waitlist)
  let entry = new_entry p user (s.new_id (map (λ (e : WaitlistEntry). e.id) rows)) now
  write (λ db. record db { waitlist = db.waitlist ++ entry ∷ [] })
  commit
  pure entry

unfoldable pub get_waitlist_entry : {s : Services} → ℕ → ℕ → Action (World s) WaitlistEntry
get_waitlist_entry entry_id user = do
  entry ← or_raise (← query (get_entry entry_id)) (http 404 waitlist_entry_not_found)
  raise_if (not (entry.user_id == user)) (http 404 waitlist_entry_not_found)
  pure entry

unfoldable pub delete_waitlist_entry : {s : Services} → ℕ → ℕ → Action (World s) (Unit {0})
delete_waitlist_entry entry_id user = do
  entry ← or_raise (← query (get_entry entry_id)) (http 404 waitlist_entry_not_found)
  raise_if (not (entry.user_id == user)) (http 404 waitlist_entry_not_found)
  write
      (λ db. record db { waitlist = remove_row (λ (e : WaitlistEntry). e.id) entry.id db.waitlist })
  commit

abbrev pub updated_entry : WaitlistEntry → WaitlistUpdate → WaitlistEntry
updated_entry entry p = record entry {
  desired_start_at = or_old p.desired_start_at entry.desired_start_at;
  desired_end_at = or_old p.desired_end_at entry.desired_end_at;
  is_active = or_old p.is_active entry.is_active;
}

unfoldable pub update_waitlist_entry :
    {s : Services} → ℕ → WaitlistUpdate → ℕ → Action (World s) WaitlistEntry
update_waitlist_entry entry_id p user = do
  entry ← or_raise (← query (get_entry entry_id)) (http 404 waitlist_entry_not_found)
  raise_if (not (entry.user_id == user)) (http 404 waitlist_entry_not_found)
  write (put_entry (updated_entry entry p))
  commit
  pure (updated_entry entry p)
