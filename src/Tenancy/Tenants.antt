-- ===== src/Tenancy/Tenants.antt =====
-- backend/src/apps/multitenancy/api/v1/tenant.py: the routes of a tenant itself.
use slot_booking.Base.{
  ℕ, Bool, true, String, List, [], ◌∷◌, ◌++◌, Option, none, some, map, select, any, if◌then◌else◌,
}
use slot_booking.Base.Text.{str_eq}
use slot_booking.Models.{remove_row}
use slot_booking.Effects.{Action, ok, err, http, ◌>>=◌, ◌>>◌, pure, raise_if, slug_taken}
use slot_booking.Api.Availability.{or_old}
use slot_booking.Tenancy.Rows.{
  Tenant, TenantMember, TenantInvitation, TenantRole, Tenancy, User, is_value, tenant_key,
  member_key, put_tenant,
}
use slot_booking.Tenancy.Session.{
  Platform, Site, TenantEvent, now, read, change, commit_site, rollback, on_error, compensate,
  add_role_for_user, remove_role_for_user, clear_lists, capture,
}
use slot_booking.Tenancy.Access.{get_tenant_or_404, require_tenant_role, grant_and_commit}

pub record TenantCreate : Type 0 where
  pub name : String
  pub slug : String
  pub description : String

pub record TenantUpdate : Type 0 where
  pub name : Option String
  pub description : Option String
  pub is_active : Option Bool

pub record TenantWithMembers : Type 0 where
  pub tenant : Tenant
  pub members : List TenantMember

abbrev pub has_slug : String → Tenant → Bool
has_slug slug t = str_eq t.slug slug

abbrev pub new_tenant : TenantCreate → ℕ → ℕ → ℕ → ℕ → Tenant
new_tenant payload id user created updated = record {
  id = id;
  name = payload.name;
  slug = payload.slug;
  description = payload.description;
  is_active = true;
  owner_id = some user;
  created_at = created;
  updated_at = updated;
}

abbrev pub new_member : ℕ → ℕ → ℕ → TenantRole → ℕ → TenantMember
new_member id tenant user role joined = record {
  id = id;
  tenant_id = some tenant;
  user_id = some user;
  role = role;
  is_active = true;
  joined_at = joined;
}

module _ {p : Platform} where
  -- `db.add(tenant)` with its flush, which gives it an id
  unfoldable pub add_tenant : TenantCreate → ℕ → Action (Site p) Tenant
  add_tenant payload user = do
    created ← now
    updated ← now
    rows ← read (λ db. db.tenants)
    let tenant = new_tenant payload (p.new_id (map tenant_key rows)) user created updated
    change (λ db. record db { tenants = db.tenants ++ tenant ∷ [] })
    pure tenant

  -- `db.add(membership)` with its flush
  unfoldable pub add_member : ℕ → ℕ → TenantRole → Action (Site p) TenantMember
  add_member tenant user role = do
    joined ← now
    rows ← read (λ db. db.members)
    let membership = new_member (p.new_id (map member_key rows)) tenant user role joined
    change (λ db. record db { members = db.members ++ membership ∷ [] })
    pure membership

  unfoldable pub create_tenant : TenantCreate → User → Action (Site p) Tenant
  create_tenant payload user = do
    taken ← read (λ db. any (has_slug payload.slug) db.tenants)
    raise_if taken (http 400 slug_taken)
    tenant ← add_tenant payload user.id
    add_member tenant.id user.id TenantRole.owner
    grant_and_commit user.id TenantRole.owner tenant
    clear_lists
    capture (TenantEvent.tenant_created user.id tenant.id tenant.slug tenant.name)
    pure tenant

  unfoldable pub get_tenant : ℕ → User → Action (Site p) TenantWithMembers
  get_tenant tenant_id user = do
    require_tenant_role tenant_id user TenantRole.member
    tenant ← get_tenant_or_404 tenant_id
    rows ← read (λ db. select (λ (m : TenantMember). is_value m.tenant_id tenant_id) db.members)
    pure (record { tenant = tenant; members = rows })

  -- The fields that the request sets; all three are NOT NULL in the table.
  unfoldable pub update_tenant : ℕ → TenantUpdate → User → Action (Site p) Tenant
  update_tenant tenant_id payload user = do
    require_tenant_role tenant_id user TenantRole.admin
    tenant ← get_tenant_or_404 tenant_id
    updated ← now
    let row = record tenant {
      name = or_old payload.name tenant.name;
      description = or_old payload.description tenant.description;
      is_active = or_old payload.is_active tenant.is_active;
      updated_at = updated;
    }
    change (put_tenant row)
    commit_site
    clear_lists
    pure row

-- SQLAlchemy's `delete` of a tenant: the rows that its relationships hold lose their `tenant_id`.
abbrev pub orphan_member : ℕ → TenantMember → TenantMember
orphan_member tenant m = if is_value m.tenant_id tenant then record m { tenant_id = none } else m

abbrev pub orphan_invitation : ℕ → TenantInvitation → TenantInvitation
orphan_invitation tenant i =
    if is_value i.tenant_id tenant then record i { tenant_id = none } else i

abbrev pub without_tenant : ℕ → Tenancy → Tenancy
without_tenant tenant db = record {
  tenants = remove_row tenant_key tenant db.tenants;
  members = map (orphan_member tenant) db.members;
  invitations = map (orphan_invitation tenant) db.invitations;
}

module _ {p : Platform} where
  -- The groupings of the members, removed one by one; `removed` counts up.
  unfoldable pub remove_groupings :
      String → List TenantMember → List (ℕ × TenantRole) → Action (Site p) (List (ℕ × TenantRole))
  remove_groupings slug [] removed = pure removed
  remove_groupings slug (m ∷ rest) removed = elim m.user_id [
    | none ↦ remove_groupings slug rest removed
    | some user ↦
        remove_role_for_user user m.role slug
        >> remove_groupings slug rest (removed ++ (user, m.role) ∷ [])
  ]

  -- Each in a `try` of its own.
  unfoldable pub restore_groupings : String → List (ℕ × TenantRole) → Action (Site p) (Unit {0})
  restore_groupings slug [] = pure tt
  restore_groupings slug ((user, role) ∷ rest) =
      compensate (add_role_for_user user role slug) >> restore_groupings slug rest

  unfoldable pub remove_or_rollback :
      String → List TenantMember → Action (Site p) (List (ℕ × TenantRole))
  remove_or_rollback slug rows w = elim (remove_groupings slug rows [] w).0 [
    | ok removed ↦ (ok removed, (remove_groupings slug rows [] w).1)
    | err e ↦ (err e, (rollback (remove_groupings slug rows [] w).1).1)
  ]

  unfoldable pub delete_tenant : ℕ → User → Action (Site p) (Unit {0})
  delete_tenant tenant_id user = do
    require_tenant_role tenant_id user TenantRole.owner
    tenant ← get_tenant_or_404 tenant_id
    rows ← read (λ db. select (λ (m : TenantMember). is_value m.tenant_id tenant_id) db.members)
    change (without_tenant tenant.id)
    removed ← remove_or_rollback tenant.slug rows
    on_error (rollback >> restore_groupings tenant.slug removed) commit_site
    clear_lists
