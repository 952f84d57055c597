-- ===== src/Tests/Tenants.antt =====
-- The tenant routes at concrete inputs: tenant 1 with owner 10 and admin 11, where commits or the
-- enforcer fail.
use slot_booking.Base.{
  ℕ, ◌+◌, Bool-cases, ◌==◌, ◌∙◌, ◌≡◌, refl, sym, ap, Bool, true, false, List, [], ◌∷◌, none, some,
  inl, inr, arith,
}
use text.Mathlib.TextEquality.{eq_iff}
use slot_booking.Base.Text.{str, str_eq, str_eq_refl, str-injective}
use slot_booking.Effects.{Result, ok, err, client_error, response_invalid, hours}
use slot_booking.Tenancy.{
  get_tenant_row, normalize_domain, Tenant, TenantMember, TenantInvitation, TenantRole,
  InvitationStatus, Tenancy, User, Site, grouping, run_site,
}
use slot_booking.Tenancy.Mirror.{IsMirrored, HasDomains, has_role}
use slot_booking.Tenancy.Mirror.{HasKeys, HasOneRow, EnforcerHolds, CommitsHold}
use slot_booking.Tenancy.Mirror.Joining.{accept_invitation-IsMirrored}
use slot_booking.Tenancy.Mirror.Lost.{join_leaves_grouping}
use slot_booking.Tenancy.Mirror.Changing.{set_role_loses}
use slot_booking.Tenancy.Mirror.Requests.{MemberRequest, serve_all, serve_all-IsMirrored}
use slot_booking.Tenancy.Mirror.Keys.{IsKeyed}
use slot_booking.Tenancy.Access.Pages.{follow, list_members_covers}
use slot_booking.Tenancy.Lists.{
  list_my_tenants_route, list_my_tenants, cached_list, build_list, set_list, as_response,
}
use slot_booking.Tenancy.Lists.Empty.{empty_list_fails_again}
use slot_booking.Tenancy.Members.{list_members, set_role}
use slot_booking.Tenancy.Invitations.{accept_invitation, join}
use slot_booking.Tests.Site.{platform, enforcer_laws, platform-IsFresh}

abbrev acme : Tenant
acme = record {
  id = 1;
  name = "Acme";
  slug = "acme";
  description = "";
  is_active = true;
  owner_id = some 10;
  created_at = 0;
  updated_at = 0;
}

abbrev member_row : ℕ → ℕ → TenantRole → TenantMember
member_row id user role = record {
  id = id;
  tenant_id = some 1;
  user_id = some user;
  role = role;
  is_active = true;
  joined_at = 0;
}

abbrev invitation : TenantInvitation
invitation = record {
  id = 1;
  tenant_id = some 1;
  email = "c@x.org";
  role = TenantRole.member;
  status = InvitationStatus.pending;
  invited_by = some 10;
  token = "t";
  expires_at = hours 48;
  created_at = 0;
  accepted_at = none;
}

abbrev tenancy : Tenancy
tenancy = record {
  tenants = acme ∷ [];
  members = member_row 1 10 TenantRole.owner ∷ member_row 2 11 TenantRole.admin ∷ [];
  invitations = invitation ∷ [];
}

-- The groupings of the two members, and the faults to come.
abbrev site : (steady sound : Bool) → List Bool → Site (platform steady sound)
site steady sound faults = record {
  db = tenancy;
  saved = tenancy;
  enforcer =
      (grouping 10 TenantRole.owner "acme" ∷ grouping 11 TenantRole.admin "acme" ∷ [], faults);
  connection = faults;
  clock = λ n. hours 1 + n;
  reads = 0;
  drawn = 0;
  lists = some [];
  captured = [];
}

abbrev owner_user : User
owner_user = record { id = 10; email = "a@x.org" }

abbrev guest : User
guest = record { id = 12; email = "c@x.org" }

only_acme : (k : ℕ) (t : Tenant) → get_tenant_row k tenancy ≡ some t → (k ≡ 1) × (t ≡ acme)
only_acme k t h = (ground arith, ground arith)

domains : HasDomains tenancy
domains j k t t' h h' e = (only_acme j t h).0 ∙ sym (only_acme k t' h').0

-- Texts of numbers compare as the numbers.
str_eq-str : (m n : ℕ) → str_eq (str m) (str n) ≡ (n == m)
str_eq-str m n = elim (Bool-cases (n == m)) [
  | inl e ↦ ap (λ x. str_eq (str m) (str x)) (ground arith) ∙ str_eq_refl (str m) ∙ sym e
  | inr e ↦ elim (Bool-cases (str_eq (str m) (str n))) [
    | inr differ ↦ differ ∙ sym e
    | inl same ↦ absurd (ground (arith, str-injective ((eq_iff (str m) (str n)).0 same)))
  ]
]

site-IsMirrored :
    (steady sound : Bool) (faults : List Bool)
    → IsMirrored (platform steady sound) tenancy (site steady sound faults).enforcer
site-IsMirrored steady sound faults k t user role h =
    let at : (k ≡ 1) × (t ≡ acme) = only_acme k t h in
    rw (at.0, at.1)
      (ground
        (arith, str_eq-str user 10, str_eq-str user 11, str_eq_refl (normalize_domain "acme")))

never_raises : EnforcerHolds (platform true true)
never_raises = (λ g e. refl, λ g e. refl)

commits_hold : (steady : Bool) → CommitsHold (platform steady true)
commits_hold steady c = refl

keys : HasKeys tenancy.members
keys = (
  (λ e. refl, (λ e. absurd (ground arith), tt)),
  ((λ e. absurd (ground arith), (λ e. refl, tt)), tt),
)

one_row : HasOneRow tenancy.members
one_row = (
  (λ e f. refl, (λ e f. absurd (ground arith), tt)),
  ((λ e f. absurd (ground arith), (λ e f. refl, tt)), tt),
)

-- A guest accepts, and the enforcer raises.
abbrev accepted : Site (platform false true)
accepted =
    (run_site (accept_invitation (record { token = "t" }) guest) (site false true (true ∷ []))).1

accept_example : IsMirrored (platform false true) accepted.saved accepted.enforcer
accept_example =
    accept_invitation-IsMirrored (enforcer_laws false true) (record { token = "t" }) guest
      (site false true (true ∷ [])) (commits_hold false) (site-IsMirrored false true (true ∷ []))
      domains

-- The guest joins, and the commit fails.
abbrev half_joined : Result TenantMember × Site (platform true false)
half_joined = join invitation acme guest (site true false (true ∷ []))

lost_example :
    (half_joined.0 ≡ err client_error)
    × (half_joined.1.saved ≡ tenancy)
    × (has_role 1 12 TenantRole.member half_joined.1.saved ≡ false)
    × ((platform true false).has_grouping
          (grouping 12 TenantRole.member "acme")
          half_joined.1.enforcer
        ≡ true)
lost_example =
    join_leaves_grouping (enforcer_laws true false) invitation acme guest
      (site true false (true ∷ [])) refl refl refl refl

-- The guest accepts, and again, the owner makes the admin a member, and the owner, who is the last one,
-- may not leave.
abbrev requests : List MemberRequest
requests =
    MemberRequest.accept (record { token = "t" }) guest
    ∷ MemberRequest.accept (record { token = "t" }) guest
    ∷ MemberRequest.change_role 1 11 (record { role = TenantRole.member }) owner_user
    ∷ MemberRequest.remove 1 10 owner_user
    ∷ []

abbrev served : Site (platform true true)
served = serve_all requests (site true true [])

requests_example :
    IsMirrored (platform true true) served.saved served.enforcer × IsKeyed served.saved
requests_example =
    serve_all-IsMirrored (enforcer_laws true true) requests (site true true []) never_raises
      (commits_hold true) (platform-IsFresh true true) (domains, keys, one_row)
      (site-IsMirrored true true [])

-- A change where the enforcer removes the admin's grouping and does not add the member's.
abbrev lost : Result TenantMember × Site (platform false true)
lost =
    set_role (member_row 2 11 TenantRole.admin) 11 TenantRole.member 1
      (site false true (false ∷ true ∷ []))

lose_example :
    (lost.0 ≡ err client_error)
    × (lost.1.saved ≡ tenancy)
    × (has_role 1 11 TenantRole.admin lost.1.saved ≡ true)
    × ((platform false true).has_grouping (grouping 11 TenantRole.admin "acme") lost.1.enforcer
        ≡ false)
lose_example =
    set_role_loses (enforcer_laws false true) (member_row 2 11 TenantRole.admin) acme 1 11
      TenantRole.member (site false true (false ∷ true ∷ [])) refl refl refl refl refl refl

covers_example :
    follow (λ skip. list_members 1 skip 1 owner_user) 1 3 0 (site true true [])
    ≡ (ok tenancy.members, site true true [])
covers_example =
    list_members_covers 1 1 owner_user (site true true []) (member_row 1 10 TenantRole.owner) refl
      (omega arith)

abbrev again : Site (platform true true)
again = (list_my_tenants_route 0 10 guest (site true true [])).1

empty_list_example : (list_my_tenants_route 0 10 guest again).0 ≡ err response_invalid
unfolding list_my_tenants_route list_my_tenants cached_list build_list set_list as_response
empty_list_example =
    (empty_list_fails_again 0 10 guest (site true true []) again [] refl refl refl).1 refl
      (omega arith)
