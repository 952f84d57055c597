-- ===== src/Tenancy/Access.antt =====
-- backend/src/apps/multitenancy/api/v1/tenant.py: its helpers, and `PaginatedResponse.create` of
-- backend/src/apps/core/schemas.py.
pub mod Guards
pub mod Pages
use slot_booking.Base.{
  ℕ, ◌+◌, Bool, ◌&&◌, not, List, Option, none, some, find_by, ltb, length, take, drop,
}
use slot_booking.Effects.{
  Action, http, ◌>>=◌, ◌>>◌, pure, raise, or_raise, raise_if, tenant_not_found, not_a_member,
  insufficient_permissions,
}
use slot_booking.Tenancy.Rows.{
  Tenant, TenantMember, TenantRole, Tenancy, User, role_order, is_of, get_tenant_row,
}
use slot_booking.Tenancy.Session.{
  Platform, Site, Page, read, add_role_for_user, remove_role_for_user, commit_site, rollback,
  on_error, compensate,
}

-- `.offset(skip).limit(limit)`
abbrev pub window : {A : Type 0} → ℕ → ℕ → List A → List A
window skip limit rows = take limit (drop skip rows)

unfoldable pub page_of : {A : Type 0} → List A → ℕ → ℕ → ℕ → Page A
page_of items total skip limit = record {
  items = items;
  total = total;
  skip = skip;
  limit = limit;
  has_more = ltb (skip + length items) total;
}

abbrev pub paginate : {A : Type 0} → ℕ → ℕ → List A → Page A
paginate skip limit rows = page_of (window skip limit rows) (length rows) skip limit

-- An active membership of a user in a tenant.
abbrev pub is_active_of : ℕ → ℕ → TenantMember → Bool
is_active_of tenant user m = is_of tenant user m && m.is_active

abbrev pub active_membership : ℕ → ℕ → Tenancy → Option TenantMember
active_membership tenant user db = find_by (is_active_of tenant user) db.members

module _ {p : Platform} where
  unfoldable pub get_tenant_or_404 : ℕ → Action (Site p) Tenant
  get_tenant_or_404 tenant_id =
      read (get_tenant_row tenant_id) >>= λ found. or_raise found (http 404 tenant_not_found)

  unfoldable pub require_tenant_role : ℕ → User → TenantRole → Action (Site p) TenantMember
  require_tenant_role tenant_id user min_role = do
    membership ← or_raise (← read (active_membership tenant_id user.id)) (http 403 not_a_member)
    raise_if (ltb (role_order membership.role) (role_order min_role))
        (http 403 insufficient_permissions)
    pure membership

  -- The end of a handler that gives a role: the grouping, then the commit, each undone where it or
  -- what follows fails.
  unfoldable pub grant_and_commit : ℕ → TenantRole → Tenant → Action (Site p) (Unit {0})
  grant_and_commit user role tenant = do
    on_error rollback (add_role_for_user user role tenant.slug)
    on_error (rollback >> compensate (remove_role_for_user user role tenant.slug)) commit_site

  -- The end of the handler that takes a role away.
  unfoldable pub revoke_and_commit : ℕ → TenantRole → Tenant → Action (Site p) (Unit {0})
  revoke_and_commit user role tenant = do
    on_error rollback (remove_role_for_user user role tenant.slug)
    on_error (rollback >> compensate (add_role_for_user user role tenant.slug)) commit_site

  -- The grouping of one role for that of another, in two calls.
  unfoldable pub swap_roles : ℕ → TenantRole → TenantRole → Tenant → Action (Site p) (Unit {0})
  swap_roles user previous role tenant = do
    remove_role_for_user user previous tenant.slug
    add_role_for_user user role tenant.slug

  -- The end of the handler that changes a role.
  unfoldable pub change_and_commit :
      ℕ → TenantRole → TenantRole → Tenant → Action (Site p) (Unit {0})
  change_and_commit user previous role tenant = do
    on_error rollback (swap_roles user previous role tenant)
    on_error (rollback >> compensate (swap_roles user role previous tenant)) commit_site
