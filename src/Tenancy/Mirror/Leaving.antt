-- ===== src/Tenancy/Mirror/Leaving.antt =====
-- The rows and groupings after a member was removed.
use slot_booking.Base.{ℕ, true, false, ◌≡◌, inl, inr, refl, ap, ◌∙◌, some}
use slot_booking.Tenancy.Rows.{Tenant, TenantMember, TenantRole, User, get_tenant_row, member_key}
use slot_booking.Tenancy.Session.{Platform, EnforcerLaws, Site, run_site}
use slot_booking.Tenancy.Access.{revoke_and_commit}
use slot_booking.Tenancy.Members.{remove_member, take_out, announce_removed, without_member}
use slot_booking.Tenancy.Mirror.Paths.{remove_member-Keeps}
use slot_booking.Tenancy.Mirror.{
  is_role_of, has_role, IsMirrored, HasDomains, HasKeys, HasOneRow, CommitsHold, same_role_refl,
}
use slot_booking.Tenancy.Mirror.Rows.{any-remove_row_kept, any-remove_row_gone}
use slot_booking.Tenancy.Mirror.Calls.{revoke_and_commit_lem}
use slot_booking.Tenancy.Mirror.View.{Same, IsMirrored-set}
use slot_booking.Tenancy.Mirror.Stages.{quiet, IsMirrored-≡, other_place, Keeps}
use slot_booking.Tenancy.Mirror.Membership.{IsMembership, membership_of-IsMembership}

module _ {p : Platform} (laws : EnforcerLaws p) where
  take_out-IsMirrored :
      (m : TenantMember) (t : Tenant) (k user_id : ℕ) (user : User) (w : Site p)
      → CommitsHold p
      → w.db ≡ w.saved
      → IsMirrored p w.saved w.enforcer
      → HasDomains w.saved
      → get_tenant_row k w.saved ≡ some t
      → IsMembership k user_id m w.saved
      → Keeps (IsMirrored p) (take_out m t k user_id user) w
  unfolding take_out announce_removed
  take_out-IsMirrored m t k user_id user w fit clean mirrored domains there row =
      let v = record w { db = without_member m w.db } in
      let has = row.has m.role ∙ same_role_refl m.role in
      let saved_gone : has_role k user_id m.role v.db ≡ false =
        ap (λ db. has_role k user_id m.role (without_member m db)) clean
        ∙ any-remove_row_gone member_key m (is_role_of k user_id m.role) w.saved.members
            (row.single m.role) in
      let others : (j u : ℕ) (r : TenantRole)
          → ¬ (Same (j, u, r) (k, user_id, m.role))
          → has_role j u r v.db ≡ has_role j u r w.saved =
        λ j u r ne.
          ap (λ db. has_role j u r (without_member m db)) clean
          ∙ any-remove_row_kept member_key m (is_role_of j u r) w.saved.members row.keyed
              (other_place k user_id j u m.role r m row.of_tenant row.of_user refl ne) in
      record {
        kept =
            IsMirrored-≡ p
              (quiet (revoke_and_commit user_id m.role t v) (λ a. announce_removed k user_id user)
                (λ a w. (refl, refl)))
              (elim (revoke_and_commit_lem laws user_id m.role t v fit
                (mirrored k t user_id m.role there ∙ has)) [
                  | inl (saved, set) ↦
                      IsMirrored-≡ p (saved, refl)
                        (IsMirrored-set p w.saved v.db w.enforcer _ mirrored domains k t there
                          (ap (λ db. db.tenants) clean) user_id m.role false set saved_gone others)
                  | inr (saved, set) ↦
                      IsMirrored-≡ p (saved, refl)
                        (IsMirrored-set p w.saved w.saved w.enforcer _ mirrored domains k t there
                          refl user_id m.role true set has (λ j u r ne. refl))
                ]);
      }

  -- Whether a member is removed or a guard refuses, and whether the enforcer's call raises: afterwards
  -- a user has a grouping of a role in a tenant's domain exactly where a committed row says so, if
  -- that was so before, if no two tenants share a domain and no two rows an id or a tenant and a
  -- user, and if commits do not fail.
  pub remove_member-IsMirrored :
      (k user_id : ℕ) (user : User) (w : Site p)
      → CommitsHold p
      → IsMirrored p w.saved w.enforcer
      → HasDomains w.saved
      → HasKeys w.saved.members
      → HasOneRow w.saved.members
      → let w' = (run_site (remove_member k user_id user) w).1 in IsMirrored p w'.saved w'.enforcer
  unfolding run_site
  remove_member-IsMirrored k user_id user w fit mirrored domains keys one =
      (remove_member-Keeps (IsMirrored p) k user_id user w mirrored (λ m t found there.
        take_out-IsMirrored m t k user_id user (record w { db = w.saved }) fit refl mirrored domains
          there (membership_of-IsMembership k user_id m w.saved found keys one))).kept
