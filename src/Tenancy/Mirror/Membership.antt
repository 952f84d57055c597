-- ===== src/Tenancy/Mirror/Membership.antt =====
-- The one row of a user in a tenant, as the handlers find it.
use slot_booking.Base.{
  ℕ, Bool, true, false, List, [], ◌∷◌, ◌≡◌, refl, sym, ap, ◌∙◌, inl, inr, Option, some, none,
  Bool-cases, any, find_by, find_by-holds, All, All-map, arith,
}
use slot_booking.Tenancy.Rows.{
  TenantMember, TenantRole, Tenancy, is_of, is_value, same_role, membership_of,
}
use slot_booking.Tenancy.Mirror.{is_role_of, has_role, HasKeys, HasOneRow}
use slot_booking.Tenancy.Mirror.Rows.{All-find_by}

-- `column == value` holds of the value alone.
is_value→≡ : (o : Option ℕ) (n : ℕ) → is_value o n ≡ true → o ≡ some n
is_value→≡ none n e = absurd (ground arith)
is_value→≡ (some m) n e = ap some (ground arith)

any-none :
    (q : TenantMember → Bool) (m : TenantMember) (rows : List TenantMember)
    → All (λ x. q x ≡ true → x ≡ m) rows
    → q m ≡ false
    → any q rows ≡ false
any-none q m [] single e = refl
any-none q m (x ∷ rows) single e = ground (arith, single.0, ap q, any-none q m rows single.1 e)

-- One row answers for all, where the others do not answer.
any-single :
    (q : TenantMember → Bool) (m : TenantMember) (rows : List TenantMember)
    → All (λ x. q x ≡ true → x ≡ m) rows
    → (r : TenantMember → Bool) → find_by r rows ≡ some m
    → any q rows ≡ q m
any-single q m [] single r e = cc
any-single q m (x ∷ rows) single r e = elim (Bool-cases (r x)) [
  | inl here ↦ elim (Bool-cases (q m)) [
    | inl yes_m ↦ ground (arith, ap q)
    | inr no_m ↦ any-none q m (x ∷ rows) single no_m ∙ sym no_m
  ]
  | inr there ↦ ground (arith, single.0, ap q, any-single q m rows single.1 r)
]

pub record IsMembership (k user : ℕ) (m : TenantMember) (db : Tenancy) : Type 0 where
  pub of_tenant : m.tenant_id ≡ some k
  pub of_user : m.user_id ≡ some user
  pub keyed : All (λ (x : TenantMember). m.id ≡ x.id → x ≡ m) db.members
  pub single : (role : TenantRole) → All (λ x. is_role_of k user role x ≡ true → x ≡ m) db.members
  pub has : (role : TenantRole) → has_role k user role db ≡ same_role m.role role

pub membership_of-IsMembership :
    (k user : ℕ) (m : TenantMember) (db : Tenancy)
    → membership_of k user db ≡ some m
    → HasKeys db.members
    → HasOneRow db.members
    → IsMembership k user m db
membership_of-IsMembership k user m db found keys one =
    let holds = find_by-holds (is_of k user) db.members {x = m} found in
    let of_tenant = is_value→≡ m.tenant_id k (ground arith) in
    let of_user = is_value→≡ m.user_id user (ground arith) in
    let single : (role : TenantRole)
        → All (λ x. is_role_of k user role x ≡ true → x ≡ m) db.members =
      λ role.
        All-map _ _
          (λ x alone e.
            alone (of_tenant ∙ sym (is_value→≡ x.tenant_id k (ground arith)))
              (of_user ∙ sym (is_value→≡ x.user_id user (ground arith))))
          db.members
          (All-find_by
            (λ x.
              All (λ (y : TenantMember). x.tenant_id ≡ y.tenant_id → x.user_id ≡ y.user_id → y ≡ x)
                db.members)
            (is_of k user) db.members found one) in
    record {
      of_tenant = of_tenant;
      of_user = of_user;
      keyed =
          All-find_by (λ x. All (λ (y : TenantMember). x.id ≡ y.id → y ≡ x) db.members)
            (is_of k user) db.members found keys;
      single = single;
      has = λ role.
          any-single (is_role_of k user role) m db.members (single role) (is_of k user) found
          ∙ ground (arith, holds);
    }
