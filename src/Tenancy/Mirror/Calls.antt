-- ===== src/Tenancy/Mirror/Calls.antt =====
-- What the last stages of the handlers leave behind: the enforcer's call, the commit, and the
-- compensation where the commit fails.
use slot_booking.Base.{
  ap, sym, subst, ℕ, Bool, true, false, ◌≡◌, ◌≢◌, ◌⊎◌, inl, inr, Bool-cases, arith,
}
use slot_booking.Tenancy.Rows.{Tenant, TenantRole}
use slot_booking.Tenancy.Session.{
  Platform, Grouping, EnforcerLaws, Site, grouping, add_role_for_user, remove_role_for_user,
  commit_site,
}
use slot_booking.Tenancy.Access.{grant_and_commit, revoke_and_commit, change_and_commit, swap_roles}
use slot_booking.Tenancy.Mirror.{EnforcerHolds, CommitsHold}

-- One grouping was set to a value, and the others are as they were.
abbrev pub IsSetTo : (p : Platform) → Grouping → Bool → p.Enforcer → p.Enforcer → Type 0
IsSetTo p g b e e' =
    (p.has_grouping g e' ≡ b) × ((h : Grouping) → h ≢ g → p.has_grouping h e' ≡ p.has_grouping h e)

-- The first grouping is gone, the second there, and the others are as they were.
abbrev pub IsSwapped : (p : Platform) → Grouping → Grouping → p.Enforcer → p.Enforcer → Type 0
IsSwapped p g h e e' =
    (p.has_grouping g e' ≡ false)
    × (p.has_grouping h e' ≡ true)
    × ((k : Grouping) → k ≢ g → k ≢ h → p.has_grouping k e' ≡ p.has_grouping k e)

module _ {p : Platform} (laws : EnforcerLaws p) where
  -- Either the session is committed and the grouping there, or nothing is committed and the grouping
  -- is absent, as it was before.
  pub grant_and_commit_lem :
      (user : ℕ) (role : TenantRole) (t : Tenant) (w : Site p)
      → CommitsHold p
      → p.has_grouping (grouping user role t.slug) w.enforcer ≡ false
      → let (r, w') = grant_and_commit user role t w in
        ((w'.saved ≡ w.db) × IsSetTo p (grouping user role t.slug) true w.enforcer w'.enforcer)
        ⊎ ((w'.saved ≡ w.saved)
            × IsSetTo p (grouping user role t.slug) false w.enforcer w'.enforcer)
  unfolding grant_and_commit add_role_for_user remove_role_for_user commit_site
  grant_and_commit_lem user role t w fit before =
      let g = grouping user role t.slug in
      let e = w.enforcer in
      let e' = (p.add_role_for_user_in_domain g e).1 in
      elim (Bool-cases (p.add_role_for_user_in_domain g e).0) [
        | inl done ↦ elim (Bool-cases (p.try_commit w.connection).0) [
          | inl saved ↦ inl (
            ground arith,
            (
              ground (arith, laws.added g e done),
              λ h ne. ground (arith, laws.added_other g h e ne),
            ),
          )
          | inr lost ↦ absurd (ground (arith, fit w.connection))
        ]
        | inr raised ↦ inr (
          ground arith,
          (
            ground (arith, laws.not_added g e raised),
            λ h ne. ground (arith, laws.added_other g h e ne),
          ),
        )
      ]

  -- Either the session is committed and the grouping gone, or nothing is committed and the grouping
  -- is there, as it was before.
  pub revoke_and_commit_lem :
      (user : ℕ) (role : TenantRole) (t : Tenant) (w : Site p)
      → CommitsHold p
      → p.has_grouping (grouping user role t.slug) w.enforcer ≡ true
      → let (r, w') = revoke_and_commit user role t w in
        ((w'.saved ≡ w.db) × IsSetTo p (grouping user role t.slug) false w.enforcer w'.enforcer)
        ⊎ ((w'.saved ≡ w.saved) × IsSetTo p (grouping user role t.slug) true w.enforcer w'.enforcer)
  unfolding revoke_and_commit add_role_for_user remove_role_for_user commit_site
  revoke_and_commit_lem user role t w fit before =
      let g = grouping user role t.slug in
      let e = w.enforcer in
      let e' = (p.remove_grouping_policy g e).1 in
      elim (Bool-cases (p.remove_grouping_policy g e).0) [
        | inl done ↦ elim (Bool-cases (p.try_commit w.connection).0) [
          | inl saved ↦ inl (
            ground arith,
            (
              ground (arith, laws.removed g e done),
              λ h ne. ground (arith, laws.removed_other g h e ne),
            ),
          )
          | inr lost ↦ absurd (ground (arith, fit w.connection))
        ]
        | inr raised ↦ inr (
          ground arith,
          (
            ground (arith, laws.not_removed g e raised),
            λ h ne. ground (arith, laws.removed_other g h e ne),
          ),
        )
      ]

  -- The enforcer after the two calls.
  abbrev swapped : Grouping → Grouping → p.Enforcer → p.Enforcer
  swapped g h e = (p.add_role_for_user_in_domain h (p.remove_grouping_policy g e).1).1

  swapped_lem :
      (g h : Grouping) (e : p.Enforcer)
      → EnforcerHolds p
      → g ≢ h
      → IsSwapped p g h e (swapped g h e)
  swapped_lem g h e holds ne =
      let e1 = (p.remove_grouping_policy g e).1 in
      (
        ground (arith, laws.removed g e (holds.1 g e), laws.added_other h g e1 ne),
        laws.added h e1 (holds.0 h e1),
        λ k kg kh. ground (arith, laws.removed_other g k e kg, laws.added_other h k e1 kh),
      )

  -- Where nothing raises, the end of the handler swaps two groupings and commits.
  pub change_and_commit_lem :
      (user : ℕ) (previous role : TenantRole) (t : Tenant) (w : Site p)
      → EnforcerHolds p
      → CommitsHold p
      → previous ≢ role
      → let (r, w') = change_and_commit user previous role t w in
        (w'.saved ≡ w.db)
        × IsSwapped p
            (grouping user previous t.slug)
            (grouping user role t.slug)
            w.enforcer
            w'.enforcer
  unfolding change_and_commit swap_roles add_role_for_user remove_role_for_user commit_site
  change_and_commit_lem user previous role t w holds commits ne =
      let g = grouping user previous t.slug in
      let h = grouping user role t.slug in
      let e1 = (p.remove_grouping_policy g w.enforcer).1 in
      let apart : g ≢ h = λ e. ne (ap (λ (k : Grouping). k.role) e) in
      let ends : ((change_and_commit user previous role t w).1.saved ≡ w.db)
          × ((change_and_commit user previous role t w).1.enforcer ≡ swapped g h w.enforcer) =
        (
          ground (arith, holds.0 h e1, holds.1 g w.enforcer, commits w.connection),
          ground (arith, holds.0 h e1, holds.1 g w.enforcer, commits w.connection),
        ) in
      (
        ends.0,
        subst (IsSwapped p g h w.enforcer) (sym ends.1) (swapped_lem g h w.enforcer holds apart),
      )
