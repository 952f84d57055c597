-- ===== src/Tenancy/Mirror/Joining.antt =====
-- The rows and groupings after an invitation was accepted.
use slot_booking.Base.{
  any-append_one, map, suc, ℕ, Bool, true, false, ◌||◌, [], ◌∷◌, ◌++◌, ◌≡◌, inl, inr, refl, ap, ◌∙◌,
  some, any, arith,
}
use slot_booking.Models.Laws.{get_row-key}
use slot_booking.Tenancy.Rows.{
  put_invitation, tenant_key, Tenant, TenantMember, TenantInvitation, TenantRole, User, same_role,
  is_of, get_tenant_row, member_key,
}
use slot_booking.Tenancy.Session.{Platform, EnforcerLaws, Site, run_site}
use slot_booking.Tenancy.Access.{grant_and_commit}
use slot_booking.Tenancy.Tenants.{add_member, new_member}
use slot_booking.Tenancy.Invitations.{
  join, accepted_invitation, announce_joined, accept_invitation, AcceptInvitationRequest,
}
use slot_booking.Tenancy.Mirror.Paths.{accept_invitation-Keeps}
use slot_booking.Tenancy.Mirror.{is_role_of, has_role, IsMirrored, HasDomains, CommitsHold}
use slot_booking.Tenancy.Mirror.Rows.{any-and}
use slot_booking.Tenancy.Mirror.Calls.{grant_and_commit_lem}
use slot_booking.Tenancy.Mirror.Stages.{quiet, IsMirrored-≡, own_place, other_place, Keeps}
use slot_booking.Tenancy.Mirror.View.{IsMirrored-set}

module _ {p : Platform} (laws : EnforcerLaws p) where
  granted-IsMirrored :
      (k user : ℕ) (role : TenantRole) (t : Tenant) (m : TenantMember) (w : Site p)
      → CommitsHold p
      → w.db.tenants ≡ w.saved.tenants
      → w.db.members ≡ w.saved.members ++ m ∷ []
      → m.tenant_id ≡ some k
      → m.user_id ≡ some user
      → m.role ≡ role
      → IsMirrored p w.saved w.enforcer
      → HasDomains w.saved
      → get_tenant_row k w.saved ≡ some t
      → has_role k user role w.saved ≡ false
      → let w' = (grant_and_commit user role t w).1 in IsMirrored p w'.saved w'.enforcer
  granted-IsMirrored k user role t m w fit tenants members of_tenant of_user of_role mirrored
        domains there absent =
      let added : (q : TenantMember → Bool) → any q w.db.members ≡ any q w.saved.members || q m =
        λ q. ap (λ rows. any q rows) members ∙ any-append_one q w.saved.members m in
      elim (grant_and_commit_lem laws user role t w fit (mirrored k t user role there ∙ absent)) [
        | inl (saved, set) ↦
            IsMirrored-≡ p (saved, refl)
              (IsMirrored-set p w.saved w.db w.enforcer _ mirrored domains k t there tenants user
                role true set
                (ground (
                  arith,
                  added (is_role_of k user role),
                  own_place k user role m of_tenant of_user of_role,
                  absent,
                ))
                (λ j u r ne. ground (
                  arith,
                  added (is_role_of j u r),
                  other_place k user j u role r m of_tenant of_user of_role ne,
                )))
        | inr (saved, set) ↦
            IsMirrored-≡ p (saved, refl)
              (IsMirrored-set p w.saved w.saved w.enforcer _ mirrored domains k t there refl user
                role false set absent (λ j u r ne. refl))
      ]

  join-IsMirrored :
      (i : TenantInvitation) (t : Tenant) (user : User) (k : ℕ) (w : Site p)
      → CommitsHold p
      → w.db ≡ w.saved
      → IsMirrored p w.saved w.enforcer
      → HasDomains w.saved
      → get_tenant_row k w.saved ≡ some t
      → any (is_of k user.id) w.saved.members ≡ false
      → Keeps (IsMirrored p) (join i t user) w
  unfolding join add_member announce_joined
  join-IsMirrored i t user k w fit clean mirrored domains there absent =
      let m =
        new_member (p.new_id (map member_key w.db.members)) t.id user.id i.role (w.clock w.reads) in
      let db =
        put_invitation (accepted_invitation i (w.clock (suc w.reads)))
          (record w.db { members = w.db.members ++ m ∷ [] }) in
      let v = record w { db = db; reads = suc (suc w.reads) } in
      let of_tenant : t.id ≡ k = get_row-key tenant_key k w.saved.tenants {x = t} there in
      record {
        kept =
            IsMirrored-≡ p
              (quiet (grant_and_commit user.id i.role t v) (λ a. announce_joined i t user m)
                (λ a w. (refl, refl)))
              (granted-IsMirrored k user.id i.role t m v fit (ap (λ x. x.tenants) clean)
                (ap (λ x. x.members ++ m ∷ []) clean) (ap some of_tenant) refl refl mirrored domains
                there
                (any-and (is_of k user.id) (λ m. same_role m.role i.role) w.saved.members absent));
      }

  -- Whether an invitation is accepted, refused or past its time, and whether the enforcer's call
  -- raises: afterwards a user has a grouping of a role in a tenant's domain exactly where a committed
  -- row says so, if that was so before, if no two tenants share a domain, and if commits do not fail.
  pub accept_invitation-IsMirrored :
      (body : AcceptInvitationRequest) (user : User) (w : Site p)
      → CommitsHold p
      → IsMirrored p w.saved w.enforcer
      → HasDomains w.saved
      → let w' = (run_site (accept_invitation body user) w).1 in IsMirrored p w'.saved w'.enforcer
  unfolding run_site
  accept_invitation-IsMirrored body user w fit mirrored domains =
      (accept_invitation-Keeps (IsMirrored p) body user w mirrored (λ i. mirrored)
        (λ i t k there absent.
          join-IsMirrored i t user k (record w { db = w.saved; reads = suc w.reads }) fit refl
            mirrored domains there absent)).kept
