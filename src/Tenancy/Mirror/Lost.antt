-- ===== src/Tenancy/Mirror/Lost.antt =====
-- The groupings after an invitation was accepted whose commit fails.
use slot_booking.Base.{◌≡◌, true, false, arith}
use slot_booking.Effects.{client_error, err}
use slot_booking.Tenancy.Rows.{Tenant, TenantInvitation, User}
use slot_booking.Tenancy.Session.{
  grouping, Platform, EnforcerLaws, Site, add_role_for_user, commit_site,
}
use slot_booking.Tenancy.Access.{grant_and_commit}
use slot_booking.Tenancy.Tenants.{add_member}
use slot_booking.Tenancy.Invitations.{join}
use slot_booking.Tenancy.Mirror.{has_role}

-- An accepted invitation whose grouping is added and whose commit then fails raises, and commits
-- nothing; but where the rows of a rolled back session cannot be read, the grouping is not taken
-- back, so the enforcer grants the user a role that no row gives.
pub join_leaves_grouping :
    {p : Platform} (laws : EnforcerLaws p) (i : TenantInvitation) (t : Tenant) (user : User)
    (w : Site p)
    → p.reads_expired ≡ false
    → has_role t.id user.id i.role w.saved ≡ false
    → let g = grouping user.id i.role t.slug in
      (p.add_role_for_user_in_domain g w.enforcer).0 ≡ true
      → (p.try_commit w.connection).0 ≡ false
      → let (r, w') = join i t user w in
        (r ≡ err client_error)
        × (w'.saved ≡ w.saved)
        × (has_role t.id user.id i.role w'.saved ≡ false)
        × (p.has_grouping g w'.enforcer ≡ true)
unfolding join add_member grant_and_commit add_role_for_user commit_site
join_leaves_grouping laws i t user w expired absent added lost =
    let there = laws.added (grouping user.id i.role t.slug) w.enforcer added in
    (ground arith, ground arith, ground arith, ground (arith, there))
