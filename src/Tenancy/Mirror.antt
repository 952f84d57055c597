-- ===== src/Tenancy/Mirror.antt =====
-- What the tenant routes and Casbin promise each other: a user has a role in a tenant's domain where
-- a row says so.
pub mod Rows
pub mod Calls
pub mod View
pub mod Stages
pub mod Paths
pub mod Pairs
pub mod Keys
pub mod Requests
pub mod Membership
pub mod Leaving
pub mod Changing
pub mod Joining
pub mod Lost
use slot_booking.Base.{
  arith, String, ℕ, Bool, ◌&&◌, true, false, List, ◌≡◌, some, any, ap, All, sym, ◌∙◌, inl, inr,
}
use slot_booking.Base.Text.{str, str-injective}
use slot_booking.Tenancy.Rows.{
  Tenant, TenantMember, TenantRole, Tenancy, same_role, is_of, get_tenant_row,
}
use slot_booking.Tenancy.Session.{Platform, Grouping, grouping, normalize_domain}

abbrev pub is_role_of : ℕ → ℕ → TenantRole → TenantMember → Bool
is_role_of tenant user role m = is_of tenant user m && same_role m.role role

abbrev pub has_role : ℕ → ℕ → TenantRole → Tenancy → Bool
has_role tenant user role db = any (is_role_of tenant user role) db.members

abbrev pub IsMirrored : (p : Platform) → Tenancy → p.Enforcer → Type 0
IsMirrored p db e =
    (k : ℕ) (t : Tenant) (user : ℕ) (role : TenantRole)
    → get_tenant_row k db ≡ some t
    → p.has_grouping (grouping user role t.slug) e ≡ has_role k user role db

-- Slugs are unique, in the form in which the enforcer takes them.
abbrev pub HasDomains : Tenancy → Type 0
HasDomains db =
    (j k : ℕ) (t t' : Tenant)
    → get_tenant_row j db ≡ some t
    → get_tenant_row k db ≡ some t'
    → normalize_domain t.slug ≡ normalize_domain t'.slug
    → j ≡ k

-- No two rows share an id, or a tenant and a user.
abbrev pub HasKeys : List TenantMember → Type 0
HasKeys rows = All (λ x. All (λ (y : TenantMember). x.id ≡ y.id → y ≡ x) rows) rows

abbrev pub HasOneRow : List TenantMember → Type 0
HasOneRow rows =
    All
      (λ x.
        All (λ (y : TenantMember). x.tenant_id ≡ y.tenant_id → x.user_id ≡ y.user_id → y ≡ x) rows)
      rows

-- The enforcer's calls do not raise, and commits do not fail.
abbrev pub EnforcerHolds : Platform → Type 0
EnforcerHolds p =
    ((g : Grouping) (e : p.Enforcer) → (p.add_role_for_user_in_domain g e).0 ≡ true)
    × ((g : Grouping) (e : p.Enforcer) → (p.remove_grouping_policy g e).0 ≡ true)

abbrev pub CommitsHold : Platform → Type 0
CommitsHold p = (c : p.Connection) → (p.try_commit c).0 ≡ true

pub same_role→≡ : (r q : TenantRole) → same_role r q ≡ true → r ≡ q
same_role→≡ TenantRole.owner TenantRole.owner e = ground arith
same_role→≡ TenantRole.owner TenantRole.admin e = absurd (ground arith)
same_role→≡ TenantRole.owner TenantRole.member e = absurd (ground arith)
same_role→≡ TenantRole.admin TenantRole.owner e = absurd (ground arith)
same_role→≡ TenantRole.admin TenantRole.admin e = ground arith
same_role→≡ TenantRole.admin TenantRole.member e = absurd (ground arith)
same_role→≡ TenantRole.member TenantRole.owner e = absurd (ground arith)
same_role→≡ TenantRole.member TenantRole.admin e = absurd (ground arith)
same_role→≡ TenantRole.member TenantRole.member e = ground arith

pub same_role_refl : (r : TenantRole) → same_role r r ≡ true
same_role_refl TenantRole.owner = ground arith
same_role_refl TenantRole.admin = ground arith
same_role_refl TenantRole.member = ground arith

-- A grouping names one user, one role and one domain.
pub grouping-injective :
    (u v : ℕ) (r q : TenantRole) (s t : String)
    → grouping u r s ≡ grouping v q t
    → (u ≡ v) × (r ≡ q) × (normalize_domain s ≡ normalize_domain t)
grouping-injective u v r q s t e = (
  str-injective (ap (λ (g : Grouping). g.user) e),
  ap (λ (g : Grouping). g.role) e,
  ap (λ (g : Grouping). g.domain) e,
)
