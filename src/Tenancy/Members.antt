-- ===== src/Tenancy/Members.antt =====
-- backend/src/apps/multitenancy/api/v1/tenant.py: the routes of a tenant's members.
use slot_booking.Base.{ℕ, Bool, ◌&&◌, List, select, length, leb, ◌==◌, if◌then◌else◌}
use slot_booking.Models.{remove_row}
use slot_booking.Effects.{
  Action, http, ◌>>=◌, ◌>>◌, pure, or_raise, raise_if, member_not_found, last_owner,
}
use slot_booking.Tenancy.Rows.{
  Tenant, TenantMember, TenantRole, Tenancy, User, is_value, same_role, member_key, membership_of,
  put_member,
}
use slot_booking.Tenancy.Session.{
  Platform, Site, Page, TenantEvent, read, change, clear_lists, capture,
}
use slot_booking.Tenancy.Access.{
  paginate, get_tenant_or_404, require_tenant_role, revoke_and_commit, change_and_commit,
}

pub record TenantMemberUpdate : Type 0 where
  pub role : TenantRole

abbrev pub members_of : ℕ → Tenancy → List TenantMember
members_of tenant db = select (λ (m : TenantMember). is_value m.tenant_id tenant) db.members

-- The owners that the guard of `remove_member` counts, active or not.
abbrev pub is_owner_row : ℕ → TenantMember → Bool
is_owner_row tenant m = is_value m.tenant_id tenant && same_role m.role TenantRole.owner

abbrev pub owners : ℕ → Tenancy → List TenantMember
owners tenant db = select (is_owner_row tenant) db.members

abbrev pub without_member : TenantMember → Tenancy → Tenancy
without_member m db = record db { members = remove_row member_key m.id db.members }

module _ {p : Platform} where
  unfoldable pub list_members : ℕ → ℕ → ℕ → User → Action (Site p) (Page TenantMember)
  list_members tenant_id skip limit user = do
    require_tenant_role tenant_id user TenantRole.member
    rows ← read (members_of tenant_id)
    pure (paginate skip limit rows)

  unfoldable pub answer_changed : TenantMember → Action (Site p) TenantMember
  answer_changed row = do clear_lists; pure row

  unfoldable pub put_role : TenantMember → ℕ → TenantRole → Tenant → Action (Site p) TenantMember
  put_role membership user role tenant = do
    let row = record membership { role = role }
    change (put_member row)
    change_and_commit user membership.role role tenant
    answer_changed row

  -- What follows once the row is found.
  unfoldable pub set_role : TenantMember → ℕ → TenantRole → ℕ → Action (Site p) TenantMember
  set_role membership user role tenant_id = do
    tenant ← get_tenant_or_404 tenant_id
    if same_role membership.role role then pure membership else put_role membership user role tenant

  -- Only an owner promotes to owner.
  unfoldable pub may_promote : ℕ → TenantRole → User → Action (Site p) (Unit {0})
  may_promote tenant_id role user =
      if same_role role TenantRole.owner
      then require_tenant_role tenant_id user TenantRole.owner >> pure tt
      else pure tt

  unfoldable pub update_member_role :
      ℕ → ℕ → TenantMemberUpdate → User → Action (Site p) TenantMember
  update_member_role tenant_id user_id payload user = do
    require_tenant_role tenant_id user TenantRole.admin
    may_promote tenant_id payload.role user
    membership ← or_raise (← read (membership_of tenant_id user_id)) (http 404 member_not_found)
    set_role membership user_id payload.role tenant_id

  -- The guard of the caller, who needs no role to leave.
  unfoldable pub may_remove : ℕ → ℕ → User → Action (Site p) (Unit {0})
  may_remove tenant_id user_id user =
      if user_id == user.id
      then pure tt
      else require_tenant_role tenant_id user TenantRole.admin >> pure tt

  -- What is dropped and told once the removal is committed.
  unfoldable pub announce_removed : ℕ → ℕ → User → Action (Site p) (Unit {0})
  announce_removed tenant_id user_id user = do
    clear_lists
    capture (TenantEvent.tenant_member_removed user.id tenant_id user_id)

  -- The last owner stays.
  unfoldable pub guard_last_owner : ℕ → TenantMember → Action (Site p) (Unit {0})
  guard_last_owner tenant_id membership = do
    count ← read (λ db. length (owners tenant_id db))
    raise_if (same_role membership.role TenantRole.owner && leb count 1) (http 400 last_owner)

  -- The removal, once every guard has passed.
  unfoldable pub take_out : TenantMember → Tenant → ℕ → ℕ → User → Action (Site p) (Unit {0})
  take_out membership tenant tenant_id user_id user = do
    change (without_member membership)
    revoke_and_commit user_id membership.role tenant
    announce_removed tenant_id user_id user

  unfoldable pub remove_member : ℕ → ℕ → User → Action (Site p) (Unit {0})
  remove_member tenant_id user_id user = do
    may_remove tenant_id user_id user
    membership ← or_raise (← read (membership_of tenant_id user_id)) (http 404 member_not_found)
    tenant ← get_tenant_or_404 tenant_id
    guard_last_owner tenant_id membership
    take_out membership tenant tenant_id user_id user
