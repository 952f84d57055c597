-- ===== src/Tenancy/Invitations.antt =====
-- backend/src/apps/multitenancy/api/v1/tenant.py: the routes of the invitations.
use slot_booking.Base.{
  ℕ, suc, ◌+◌, Bool, ◌&&◌, not, String, List, [], ◌∷◌, ◌++◌, Option, none, some, map, select,
  find_by, any, ltb, ◌==◌, if◌then◌else◌,
}
use slot_booking.Base.Text.{str_eq}
use slot_booking.Effects.{
  Action, ok, http, ◌>>=◌, ◌>>◌, pure, raise, or_raise, raise_if, hours, invitation_not_found,
  invitation_exists, invitation_expired, invitation_closed, other_email, already_a_member,
  not_pending, tenant_not_found,
}
use slot_booking.Tenancy.Rows.{
  Tenant, TenantMember, TenantInvitation, TenantRole, InvitationStatus, Tenancy, User, is_value,
  is_pending, is_null, is_of, invitation_key, put_invitation,
}
use slot_booking.Tenancy.Session.{
  Platform, Site, Page, TenantEvent, now, read, change, commit_site, clear_lists, capture,
}
use slot_booking.Tenancy.Access.{paginate, get_tenant_or_404, require_tenant_role, grant_and_commit}
use slot_booking.Tenancy.Tenants.{add_member}

pub record TenantInvitationCreate : Type 0 where
  pub email : String
  pub role : TenantRole

pub record AcceptInvitationRequest : Type 0 where
  pub token : String

abbrev invitation_ttl_hours : ℕ
invitation_ttl_hours = 48

abbrev is_pending_for : ℕ → String → TenantInvitation → Bool
is_pending_for tenant email i =
    is_value i.tenant_id tenant && str_eq i.email email && is_pending i.status

abbrev pub has_token : String → TenantInvitation → Bool
has_token token i = str_eq i.token token

abbrev pub new_invitation : TenantInvitationCreate → ℕ → ℕ → ℕ → String → ℕ → ℕ → TenantInvitation
new_invitation payload id tenant user token expires created = record {
  id = id;
  tenant_id = some tenant;
  email = payload.email;
  role = payload.role;
  status = InvitationStatus.pending;
  invited_by = some user;
  token = token;
  expires_at = expires;
  created_at = created;
  accepted_at = none;
}

abbrev pub invitation_of : ℕ → ℕ → TenantInvitation → Bool
invitation_of tenant id i = i.id == id && is_value i.tenant_id tenant

abbrev pub invitations_of : ℕ → Tenancy → List TenantInvitation
invitations_of tenant db =
    select (λ (i : TenantInvitation). is_value i.tenant_id tenant) db.invitations

abbrev pub lapsed_invitation : TenantInvitation → TenantInvitation
lapsed_invitation i = record i { status = InvitationStatus.expired }

abbrev pub accepted_invitation : TenantInvitation → ℕ → TenantInvitation
accepted_invitation i time = record i {
  status = InvitationStatus.accepted;
  accepted_at = some time;
}

abbrev pub revoked_invitation : TenantInvitation → TenantInvitation
revoked_invitation i = record i { status = InvitationStatus.revoked }

-- `TenantMember.tenant_id == invitation.tenant_id` and the user's: `IS NULL` where that is NULL.
abbrev pub is_already : Option ℕ → ℕ → TenantMember → Bool
is_already none user m = is_null m.tenant_id && is_value m.user_id user
is_already (some k) user m = is_of k user m

module _ {p : Platform} where
  -- `str(uuid.uuid4())`
  abbrev draw_token : Action (Site p) String
  draw_token w = (ok (p.uuid4 w.drawn), record w { drawn = suc w.drawn })

  unfoldable pub invite_member :
      ℕ → TenantInvitationCreate → User → Action (Site p) TenantInvitation
  invite_member tenant_id payload user = do
    require_tenant_role tenant_id user TenantRole.admin
    get_tenant_or_404 tenant_id
    existing ← read (λ db. any (is_pending_for tenant_id payload.email) db.invitations)
    raise_if existing (http 400 invitation_exists)
    token ← draw_token
    time ← now
    created ← now
    rows ← read (λ db. db.invitations)
    let invitation =
        new_invitation payload (p.new_id (map invitation_key rows)) tenant_id user.id token
          (time + hours invitation_ttl_hours) created
    change (λ db. record db { invitations = db.invitations ++ invitation ∷ [] })
    commit_site
    capture (TenantEvent.tenant_member_invited user.id tenant_id payload.email payload.role)
    pure invitation

  unfoldable pub list_invitations : ℕ → ℕ → ℕ → User → Action (Site p) (Page TenantInvitation)
  list_invitations tenant_id skip limit user = do
    require_tenant_role tenant_id user TenantRole.admin
    rows ← read (invitations_of tenant_id)
    pure (paginate skip limit rows)

  -- An invitation past its time is marked, with a commit of its own, and refused.
  unfoldable pub check_expiry : TenantInvitation → Action (Site p) (Unit {0})
  check_expiry invitation = do
    time ← now
    if ltb invitation.expires_at time
        then change (put_invitation (lapsed_invitation invitation))
          >> commit_site
          >> raise (http 400 invitation_expired)
        else pure tt

  -- `invitation.tenant_id` of a row whose tenant was deleted finds no tenant.
  abbrev pub tenant_of : TenantInvitation → Action (Site p) Tenant
  tenant_of invitation = elim invitation.tenant_id [
    | some k ↦ get_tenant_or_404 k
    | none ↦ raise (http 404 tenant_not_found)
  ]

  -- What is dropped and told once the membership is committed.
  unfoldable pub announce_joined :
      TenantInvitation → Tenant → User → TenantMember → Action (Site p) TenantMember
  announce_joined invitation tenant user membership = do
    clear_lists
    capture (TenantEvent.tenant_member_joined user.id tenant.id tenant.slug invitation.role)
    pure membership

  -- The membership and the row, once every guard has passed.
  unfoldable pub join : TenantInvitation → Tenant → User → Action (Site p) TenantMember
  join invitation tenant user = do
    membership ← add_member tenant.id user.id invitation.role
    time ← now
    change (put_invitation (accepted_invitation invitation time))
    grant_and_commit user.id invitation.role tenant
    announce_joined invitation tenant user membership

  -- The guards of an invitation that is in time.
  unfoldable pub accept_in_time : TenantInvitation → User → Action (Site p) TenantMember
  accept_in_time invitation user = do
    raise_if (not (str_eq invitation.email user.email)) (http 403 other_email)
    already ← read (λ db. any (is_already invitation.tenant_id user.id) db.members)
    raise_if already (http 400 already_a_member)
    tenant ← tenant_of invitation
    join invitation tenant user

  unfoldable pub accept_invitation : AcceptInvitationRequest → User → Action (Site p) TenantMember
  accept_invitation body user = do
    invitation ←
        or_raise (← read (λ db. find_by (has_token body.token) db.invitations))
          (http 404 invitation_not_found)
    raise_if (not (is_pending invitation.status)) (http 400 invitation_closed)
    check_expiry invitation
    accept_in_time invitation user

  unfoldable pub revoke_invitation : ℕ → ℕ → User → Action (Site p) (Unit {0})
  revoke_invitation tenant_id invitation_id user = do
    require_tenant_role tenant_id user TenantRole.admin
    invitation ←
        or_raise (← read (λ db. find_by (invitation_of tenant_id invitation_id) db.invitations))
          (http 404 invitation_not_found)
    raise_if (not (is_pending invitation.status)) (http 400 not_pending)
    change (put_invitation (revoked_invitation invitation))
    commit_site
