-- ===== src/Tenancy/Rows.antt =====
-- backend/src/apps/multitenancy/models/tenant.py: the roles, the statuses and the rows. A member's
-- and an invitation's `tenant_id` may be NULL: SQLAlchemy writes it when their tenant is deleted.
use slot_booking.Base.{ℕ, Bool, true, false, ◌&&◌, String, Option, none, some, List, ◌==◌, find_by}
use slot_booking.Models.{get_row, put_row}

pub data TenantRole : Type 0 where
  owner admin member : TenantRole

pub data InvitationStatus : Type 0 where
  pending accepted expired revoked : InvitationStatus

pub record Tenant : Type 0 where
  pub id : ℕ
  pub name : String
  pub slug : String
  pub description : String
  pub is_active : Bool
  pub owner_id : Option ℕ
  pub created_at : ℕ
  pub updated_at : ℕ

pub record TenantMember : Type 0 where
  pub id : ℕ
  pub tenant_id : Option ℕ
  pub user_id : Option ℕ
  pub role : TenantRole
  pub is_active : Bool
  pub joined_at : ℕ

pub record TenantInvitation : Type 0 where
  pub id : ℕ
  pub tenant_id : Option ℕ
  pub email : String
  pub role : TenantRole
  pub status : InvitationStatus
  pub invited_by : Option ℕ
  pub token : String
  pub expires_at : ℕ
  pub created_at : ℕ
  pub accepted_at : Option ℕ

pub record Tenancy : Type 0 where
  pub tenants : List Tenant
  pub members : List TenantMember
  pub invitations : List TenantInvitation

-- The columns of backend/src/apps/iam/models/user.py that these routes read.
pub record User : Type 0 where
  pub id : ℕ
  pub email : String

-- `role_order[role]`
abbrev pub role_order : TenantRole → ℕ
role_order TenantRole.member = 0
role_order TenantRole.admin = 1
role_order TenantRole.owner = 2

-- `role == TenantRole.X`, of two roles
abbrev pub same_role : TenantRole → TenantRole → Bool
same_role r q = role_order r == role_order q

abbrev pub is_pending : InvitationStatus → Bool
is_pending InvitationStatus.pending = true
is_pending _ = false

-- `column == value` of a column that may be NULL
abbrev pub is_value : Option ℕ → ℕ → Bool
is_value none n = false
is_value (some m) n = m == n

abbrev pub is_null : Option ℕ → Bool
is_null none = true
is_null (some m) = false

abbrev pub tenant_key : Tenant → ℕ
tenant_key t = t.id

abbrev pub member_key : TenantMember → ℕ
member_key m = m.id

abbrev pub invitation_key : TenantInvitation → ℕ
invitation_key i = i.id

abbrev pub get_tenant_row : ℕ → Tenancy → Option Tenant
get_tenant_row k db = get_row tenant_key k db.tenants

-- The rows of a user in a tenant.
abbrev pub is_of : ℕ → ℕ → TenantMember → Bool
is_of tenant user m = is_value m.tenant_id tenant && is_value m.user_id user

abbrev pub membership_of : ℕ → ℕ → Tenancy → Option TenantMember
membership_of tenant user db = find_by (is_of tenant user) db.members

abbrev pub put_tenant : Tenant → Tenancy → Tenancy
put_tenant t db = record db { tenants = put_row tenant_key t db.tenants }

abbrev pub put_member : TenantMember → Tenancy → Tenancy
put_member m db = record db { members = put_row member_key m db.members }

abbrev pub put_invitation : TenantInvitation → Tenancy → Tenancy
put_invitation i db = record db { invitations = put_row invitation_key i db.invitations }
