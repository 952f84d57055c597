-- ===== src/Tenancy/Mirror/Changing.antt =====
-- The rows and groupings after a member's role was changed.
use slot_booking.Base.{ℕ, true, false, ◌≡◌, ◌≢◌, refl, sym, ap, ◌∙◌, some, arith}
use slot_booking.Effects.{client_error, err}
use slot_booking.Tenancy.Rows.{
  put_member, Tenant, TenantMember, TenantRole, User, same_role, is_of, get_tenant_row, member_key,
  membership_of,
}
use slot_booking.Tenancy.Session.{
  Grouping, grouping, add_role_for_user, remove_role_for_user, Platform, EnforcerLaws, Site,
  run_site,
}
use slot_booking.Tenancy.Access.{swap_roles, change_and_commit, get_tenant_or_404}
use slot_booking.Tenancy.Members.{
  TenantMemberUpdate, update_member_role, set_role, put_role, answer_changed,
}
use slot_booking.Tenancy.Mirror.Paths.{update_member_role-Keeps}
use slot_booking.Tenancy.Mirror.{
  is_role_of, has_role, IsMirrored, HasDomains, HasKeys, HasOneRow, EnforcerHolds, CommitsHold,
  same_role_refl,
}
use slot_booking.Tenancy.Mirror.Rows.{any-put_row_kept, any-put_row_gone, any-put_row_there}
use slot_booking.Tenancy.Mirror.Calls.{change_and_commit_lem}
use slot_booking.Tenancy.Mirror.View.{Same, IsMirrored-swap}
use slot_booking.Tenancy.Mirror.Stages.{quiet, IsMirrored-≡, own_place, other_place, Keeps}
use slot_booking.Tenancy.Mirror.Membership.{IsMembership, membership_of-IsMembership}

module _ {p : Platform} (laws : EnforcerLaws p) where
  put_role-IsMirrored :
      (m : TenantMember) (t : Tenant) (k user_id : ℕ) (role : TenantRole) (w : Site p)
      → EnforcerHolds p
      → CommitsHold p
      → w.db ≡ w.saved
      → IsMirrored p w.saved w.enforcer
      → HasDomains w.saved
      → get_tenant_row k w.saved ≡ some t
      → membership_of k user_id w.saved ≡ some m
      → IsMembership k user_id m w.saved
      → same_role m.role role ≡ false
      → Keeps (IsMirrored p) (put_role m user_id role t) w
  unfolding put_role answer_changed
  put_role-IsMirrored m t k user_id role w holds commits clean mirrored domains there found row
        differ =
      let m' = record m { role = role } in
      let v = record w { db = put_member m' w.db } in
      let ne : m.role ≢ role =
        λ e. ground (arith, ap (λ r. same_role m.role r) (sym e), same_role_refl m.role) in
      let gone : has_role k user_id m.role v.db ≡ false =
        ap (λ db. has_role k user_id m.role (put_member m' db)) clean
        ∙ any-put_row_gone member_key m (is_role_of k user_id m.role) m' refl w.saved.members
            (row.single m.role)
            (other_place k user_id k user_id role m.role m' row.of_tenant row.of_user refl
              (λ s. ne s.2)) in
      let here : has_role k user_id role v.db ≡ true =
        ap (λ db. has_role k user_id role (put_member m' db)) clean
        ∙ any-put_row_there member_key m (is_role_of k user_id role) m' refl (is_of k user_id)
            w.saved.members found (own_place k user_id role m' row.of_tenant row.of_user refl) in
      let others : (j u : ℕ) (r : TenantRole)
          → ¬ (Same (j, u, r) (k, user_id, m.role))
          → ¬ (Same (j, u, r) (k, user_id, role))
          → has_role j u r v.db ≡ has_role j u r w.saved =
        λ j u r old new.
          ap (λ db. has_role j u r (put_member m' db)) clean
          ∙ any-put_row_kept member_key m (is_role_of j u r) m' refl w.saved.members row.keyed (
              other_place k user_id j u role r m' row.of_tenant row.of_user refl new
              ∙ sym (other_place k user_id j u m.role r m row.of_tenant row.of_user refl old)) in
      let swap = change_and_commit_lem laws user_id m.role role t v holds commits ne in
      record {
        kept =
            IsMirrored-≡ p
              (quiet (change_and_commit user_id m.role role t v) (λ a. answer_changed m')
                (λ a w. (refl, refl)))
              (IsMirrored-≡ p (swap.0, refl)
                (IsMirrored-swap p w.saved v.db w.enforcer _ mirrored domains k t there
                  (ap (λ db. db.tenants) clean) user_id m.role role swap.1 gone here others));
      }

  -- Whether a role is changed, is the same already, or a guard refuses: afterwards a user has a
  -- grouping of a role in a tenant's domain exactly where a committed row says so, if that was so
  -- before, if no two tenants share a domain and no two rows an id or a tenant and a user, if the
  -- enforcer's calls do not raise and if commits do not fail.
  pub update_member_role-IsMirrored :
      (k user_id : ℕ) (payload : TenantMemberUpdate) (user : User) (w : Site p)
      → EnforcerHolds p
      → CommitsHold p
      → IsMirrored p w.saved w.enforcer
      → HasDomains w.saved
      → HasKeys w.saved.members
      → HasOneRow w.saved.members
      → let w' = (run_site (update_member_role k user_id payload user) w).1 in
        IsMirrored p w'.saved w'.enforcer
  unfolding run_site
  update_member_role-IsMirrored k user_id payload user w holds commits mirrored domains keys one =
      (update_member_role-Keeps (IsMirrored p) k user_id payload user w mirrored
        (λ m t found there differ.
          put_role-IsMirrored m t k user_id payload.role (record w { db = w.saved }) holds commits
            refl mirrored domains there found
            (membership_of-IsMembership k user_id m w.saved found keys one) differ)).kept

  -- A role change of which the enforcer removes the old grouping and then fails to add the new one
  -- raises, and commits nothing; but the old grouping is gone, so the user has by the rows a role
  -- that the enforcer no longer grants.
  pub set_role_loses :
      (m : TenantMember) (t : Tenant) (k user_id : ℕ) (role : TenantRole) (w : Site p)
      → get_tenant_row k w.db ≡ some t
      → w.db ≡ w.saved
      → has_role k user_id m.role w.saved ≡ true
      → same_role m.role role ≡ false
      → let old = grouping user_id m.role t.slug in
        let new = grouping user_id role t.slug in
        let removed = p.remove_grouping_policy old w.enforcer in
        removed.0 ≡ true
        → (p.add_role_for_user_in_domain new removed.1).0 ≡ false
        → let (r, w') = set_role m user_id role k w in
          (r ≡ err client_error)
          × (w'.saved ≡ w.saved)
          × (has_role k user_id m.role w'.saved ≡ true)
          × (p.has_grouping old w'.enforcer ≡ false)
  unfolding set_role put_role get_tenant_or_404 change_and_commit swap_roles add_role_for_user
      remove_role_for_user
  set_role_loses m t k user_id role w there clean has differ took gave =
      let old = grouping user_id m.role t.slug in
      let new = grouping user_id role t.slug in
      let e = (p.remove_grouping_policy old w.enforcer).1 in
      let apart : old ≢ new = λ q.
        ground
          (arith, ap (λ (g : Grouping). same_role m.role g.role) (sym q), same_role_refl m.role) in
      let lost : p.has_grouping old (p.add_role_for_user_in_domain new e).1 ≡ false =
        laws.added_other new old e apart ∙ laws.removed old w.enforcer took in
      (ground arith, ground arith, ground arith, ground arith)
