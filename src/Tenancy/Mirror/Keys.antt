-- ===== src/Tenancy/Mirror/Keys.antt =====
-- The keys of the rows that the handlers commit.
use slot_booking.Effects.{Action, Result, ok, err, continue}
use slot_booking.Base.{
  subst, ℕ, suc, Bool, false, List, [], ◌∷◌, ◌++◌, ◌≡◌, ◌≢◌, ◌⊎◌, inl, inr, refl, sym, ap, ◌∙◌,
  some, Bool-cases, any, All, All-map, map, arith,
}
use slot_booking.Models.Laws.{get_row-key}
use slot_booking.Tenancy.Rows.{
  Tenant, TenantMember, TenantInvitation, TenantRole, Tenancy, User, is_of, tenant_key, member_key,
  get_tenant_row, membership_of, put_member, put_invitation,
}
use slot_booking.Tenancy.Session.{
  grouping, Platform, Site, add_role_for_user, remove_role_for_user, commit_site,
}
use slot_booking.Tenancy.Access.{grant_and_commit, revoke_and_commit, change_and_commit, swap_roles}
use slot_booking.Tenancy.Tenants.{add_member, new_member}
use slot_booking.Tenancy.Members.{
  take_out, put_role, without_member, announce_removed, answer_changed,
}
use slot_booking.Tenancy.Invitations.{join, announce_joined, accepted_invitation}
use slot_booking.Tenancy.Mirror.{HasDomains, HasKeys, HasOneRow}
use slot_booking.Tenancy.Mirror.Pairs.{Pairs-append, Pairs-remove_row, Pairs-put_row}
use slot_booking.Tenancy.Mirror.Rows.{All-find_by}
use slot_booking.Tenancy.Mirror.Stages.{Keeps, quiet}

-- What the tables' keys promise.
abbrev pub IsKeyed : Tenancy → Type 0
IsKeyed db = HasDomains db × HasKeys db.members × HasOneRow db.members

-- The sequence gives a key that no row has.
abbrev pub IsFresh : Platform → Type 0
IsFresh p =
    (rows : List TenantMember)
    → All (λ (x : TenantMember). x.id ≢ p.new_id (map member_key rows)) rows

All-false :
    (q : TenantMember → Bool) (xs : List TenantMember)
    → any q xs ≡ false
    → All (λ x. q x ≡ false) xs
All-false q [] e = tt
All-false q (x ∷ xs) e = (ground arith, All-false q xs (ground arith))

module _ {p : Platform} where
  grant_and_commit-saved :
      (user : ℕ) (role : TenantRole) (t : Tenant) (w : Site p)
      → ((grant_and_commit user role t w).1.saved ≡ w.db)
        ⊎ ((grant_and_commit user role t w).1.saved ≡ w.saved)
  unfolding grant_and_commit add_role_for_user remove_role_for_user commit_site
  grant_and_commit-saved user role t w =
      let g = grouping user role t.slug in
      elim (Bool-cases (p.add_role_for_user_in_domain g w.enforcer).0) [
        | inr raised ↦ inr (ground arith)
        | inl done ↦ elim (Bool-cases (p.try_commit w.connection).0) [
          | inl saved ↦ inl (ground arith)
          | inr lost ↦ elim (Bool-cases p.reads_expired) [
            | inl e ↦ inr (ground arith)
            | inr e ↦ inr (ground arith)
          ]
        ]
      ]

  revoke_and_commit-saved :
      (user : ℕ) (role : TenantRole) (t : Tenant) (w : Site p)
      → ((revoke_and_commit user role t w).1.saved ≡ w.db)
        ⊎ ((revoke_and_commit user role t w).1.saved ≡ w.saved)
  unfolding revoke_and_commit add_role_for_user remove_role_for_user commit_site
  revoke_and_commit-saved user role t w =
      let g = grouping user role t.slug in
      elim (Bool-cases (p.remove_grouping_policy g w.enforcer).0) [
        | inr raised ↦ inr (ground arith)
        | inl done ↦ elim (Bool-cases (p.try_commit w.connection).0) [
          | inl saved ↦ inl (ground arith)
          | inr lost ↦ elim (Bool-cases p.reads_expired) [
            | inl e ↦ inr (ground arith)
            | inr e ↦ inr (ground arith)
          ]
        ]
      ]

  swap_roles-saved :
      (user : ℕ) (old new : TenantRole) (t : Tenant) (w : Site p)
      → ((swap_roles user old new t w).1.saved ≡ w.saved)
        × ((swap_roles user old new t w).1.db ≡ w.db)
  unfolding swap_roles add_role_for_user remove_role_for_user
  swap_roles-saved user old new t w =
      elim (Bool-cases (p.remove_grouping_policy (grouping user old t.slug) w.enforcer).0) [
        | inl done ↦ (ground arith, ground arith)
        | inr raised ↦ (ground arith, ground arith)
      ]

  change_and_commit-saved :
      (user : ℕ) (old new : TenantRole) (t : Tenant) (w : Site p)
      → ((change_and_commit user old new t w).1.saved ≡ w.db)
        ⊎ ((change_and_commit user old new t w).1.saved ≡ w.saved)
  unfolding change_and_commit commit_site
  change_and_commit-saved user old new t w = after (swap_roles user old new t w) refl
    where
      after :
          (r : Result (Unit {0}) × Site p)
          → swap_roles user old new t w ≡ r
          → ((change_and_commit user old new t w).1.saved ≡ w.db)
            ⊎ ((change_and_commit user old new t w).1.saved ≡ w.saved)
      after (err e, v) h = inr (ground (arith, (swap_roles-saved user old new t w).0))
      after (ok tt, v) h =
          let first = swap_roles-saved user old new t w in
          let (done, c) = p.try_commit v.connection in
          let back = swap_roles-saved user new old t (record v { db = v.saved; connection = c }) in
          elim (Bool-cases (p.try_commit v.connection).0) [
            | inl saved ↦ inl (ground (arith, first))
            | inr lost ↦ elim (Bool-cases p.reads_expired) [
              | inl e ↦ inr (ground (arith, first, back))
              | inr e ↦ inr (ground (arith, first))
            ]
          ]

  -- Where the end of a handler commits what the session has, or nothing.
  IsKeyed-end :
      {A B : Type 0} (act : Action (Site p) A) (f : A → Action (Site p) B) (w : Site p)
      → ((act w).1.saved ≡ w.db) ⊎ ((act w).1.saved ≡ w.saved)
      → ((a : A) (v : Site p) → ((f a v).1.saved ≡ v.saved) × ((f a v).1.enforcer ≡ v.enforcer))
      → IsKeyed w.db
      → IsKeyed w.saved
      → IsKeyed (continue (act w) f).1.saved
  IsKeyed-end act f w either still new old =
      let same = (quiet (act w) f still).0 in
      elim either [
        | inl e ↦ subst IsKeyed (sym (same ∙ e)) new
        | inr e ↦ subst IsKeyed (sym (same ∙ e)) old
      ]

-- A new row of a user who had none in the tenant.
IsKeyed-added :
    (db : Tenancy) (m : TenantMember) (k user : ℕ)
    → IsKeyed db
    → All (λ (x : TenantMember). x.id ≢ m.id) db.members
    → m.tenant_id ≡ some k
    → m.user_id ≡ some user
    → any (is_of k user) db.members ≡ false
    → IsKeyed (record db { members = db.members ++ m ∷ [] })
IsKeyed-added db m k user keyed fresh of_tenant of_user new = (
  keyed.0,
  Pairs-append (λ (x y : TenantMember). x.id ≡ y.id → y ≡ x) db.members m keyed.1
      (All-map (λ (x : TenantMember). x.id ≢ m.id) _ (λ x ne e. absurd (ne e)) db.members fresh)
      (All-map (λ (x : TenantMember). x.id ≢ m.id) _ (λ x ne e. absurd (ne (sym e))) db.members
        fresh)
      (λ e. refl),
  Pairs-append (λ (x y : TenantMember). x.tenant_id ≡ y.tenant_id → x.user_id ≡ y.user_id → y ≡ x)
      db.members m keyed.2
      (All-map (λ (x : TenantMember). is_of k user x ≡ false) _
        (λ x out e f. absurd (ground (arith, of_tenant, of_user))) db.members
        (All-false (is_of k user) db.members new))
      (All-map (λ (x : TenantMember). is_of k user x ≡ false) _
        (λ x out e f. absurd (ground (arith, of_tenant, of_user))) db.members
        (All-false (is_of k user) db.members new))
      (λ e f. refl),
)

IsKeyed-removed : (db : Tenancy) (m : TenantMember) → IsKeyed db → IsKeyed (without_member m db)
IsKeyed-removed db m keyed = (
  keyed.0,
  Pairs-remove_row member_key (λ (x y : TenantMember). x.id ≡ y.id → y ≡ x) m.id db.members keyed.1,
  Pairs-remove_row member_key
      (λ (x y : TenantMember). x.tenant_id ≡ y.tenant_id → x.user_id ≡ y.user_id → y ≡ x) m.id
      db.members keyed.2,
)

-- A row with another role.
IsKeyed-changed :
    (db : Tenancy) (m : TenantMember) (k user : ℕ) (role : TenantRole)
    → membership_of k user db ≡ some m
    → IsKeyed db
    → IsKeyed (put_member (record m { role = role }) db)
IsKeyed-changed db m k user role found keyed =
    let m' = record m { role = role } in
    let alone =
      All-find_by
        (λ x.
          All (λ (y : TenantMember). x.tenant_id ≡ y.tenant_id → x.user_id ≡ y.user_id → y ≡ x)
            db.members)
        (is_of k user) db.members found keyed.2 in
    (
      keyed.0,
      Pairs-put_row member_key (λ (x y : TenantMember). x.id ≡ y.id → y ≡ x) m' db.members keyed.1
          (All-map _ _ (λ x k ne. (λ e. absurd (ne e), λ e. absurd (ne (sym e)))) db.members alone)
          (λ e. refl),
      Pairs-put_row member_key
          (λ (x y : TenantMember). x.tenant_id ≡ y.tenant_id → x.user_id ≡ y.user_id → y ≡ x) m'
          db.members keyed.2
          (All-map (λ (y : TenantMember). m.tenant_id ≡ y.tenant_id → m.user_id ≡ y.user_id → y ≡ m)
            _
            (λ x one ne. (
              λ e f. absurd (ne (ap member_key (one (sym e) (sym f)))),
              λ e f. absurd (ne (ap member_key (one e f))),
            ))
            db.members alone)
          (λ e f. refl),
    )

module _ {p : Platform} where
  pub join-IsKeyed :
      (i : TenantInvitation) (t : Tenant) (user : User) (k : ℕ) (w : Site p)
      → IsFresh p
      → w.db ≡ w.saved
      → IsKeyed w.saved
      → get_tenant_row k w.saved ≡ some t
      → any (is_of k user.id) w.saved.members ≡ false
      → Keeps (λ db e. IsKeyed db) (join i t user) w
  unfolding join add_member announce_joined
  join-IsKeyed i t user k w fresh clean keyed there new =
      let m =
        new_member (p.new_id (map member_key w.db.members)) t.id user.id i.role (w.clock w.reads) in
      let db =
        put_invitation (accepted_invitation i (w.clock (suc w.reads)))
          (record w.db { members = w.db.members ++ m ∷ [] }) in
      let v = record w { db = db; reads = suc (suc w.reads) } in
      let of_tenant : t.id ≡ k = get_row-key tenant_key k w.saved.tenants {x = t} there in
      let here : IsKeyed w.db = subst IsKeyed (sym clean) keyed in
      record {
        kept =
            IsKeyed-end (grant_and_commit user.id i.role t) (λ a. announce_joined i t user m) v
              (grant_and_commit-saved user.id i.role t v) (λ a w. (refl, refl))
              (IsKeyed-added w.db m k user.id here (fresh w.db.members) (ap some of_tenant) refl
                (ap (λ (x : Tenancy). any (is_of k user.id) x.members) clean ∙ new))
              keyed;
      }

  pub take_out-IsKeyed :
      (m : TenantMember) (t : Tenant) (k user_id : ℕ) (user : User) (w : Site p)
      → w.db ≡ w.saved
      → IsKeyed w.saved
      → Keeps (λ db e. IsKeyed db) (take_out m t k user_id user) w
  unfolding take_out announce_removed
  take_out-IsKeyed m t k user_id user w clean keyed =
      let v = record w { db = without_member m w.db } in
      record {
        kept =
            IsKeyed-end (revoke_and_commit user_id m.role t) (λ a. announce_removed k user_id user)
              v (revoke_and_commit-saved user_id m.role t v) (λ a w. (refl, refl))
              (IsKeyed-removed w.db m (subst IsKeyed (sym clean) keyed)) keyed;
      }

  pub put_role-IsKeyed :
      (m : TenantMember) (t : Tenant) (k user_id : ℕ) (role : TenantRole) (w : Site p)
      → w.db ≡ w.saved
      → IsKeyed w.saved
      → membership_of k user_id w.saved ≡ some m
      → Keeps (λ db e. IsKeyed db) (put_role m user_id role t) w
  unfolding put_role answer_changed
  put_role-IsKeyed m t k user_id role w clean keyed found =
      let m' = record m { role = role } in
      let v = record w { db = put_member m' w.db } in
      record {
        kept =
            IsKeyed-end (change_and_commit user_id m.role role t) (λ a. answer_changed m') v
              (change_and_commit-saved user_id m.role role t v) (λ a w. (refl, refl))
              (IsKeyed-changed w.db m k user_id role (ap (membership_of k user_id) clean ∙ found)
                (subst IsKeyed (sym clean) keyed))
              keyed;
      }
