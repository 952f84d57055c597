-- ===== src/Tenancy/Mirror/View.antt =====
-- The rows and the groupings stay mirrored where both change at the same places.
use slot_booking.Base.{
  ℕ, Bool, true, false, ◌≡◌, ◌≢◌, ◌⊎◌, inl, inr, sym, ap, ◌∙◌, some, Bool-cases, ◌==◌, arith,
}
use slot_booking.Models.{get_row}
use slot_booking.Tenancy.Rows.{Tenant, TenantRole, Tenancy, same_role, tenant_key, get_tenant_row}
use slot_booking.Tenancy.Session.{Platform, grouping}
use slot_booking.Tenancy.Mirror.{
  has_role, IsMirrored, HasDomains, same_role→≡, same_role_refl, grouping-injective,
}
use slot_booking.Tenancy.Mirror.Calls.{IsSetTo, IsSwapped}

-- The same tenant, user and role.
abbrev pub Same : ℕ × ℕ × TenantRole → ℕ × ℕ × TenantRole → Type 0
Same (k, u, r) (j, v, q) = (k ≡ j) × (u ≡ v) × (r ≡ q)

pub Same-cases : (x y : ℕ × ℕ × TenantRole) → Same x y ⊎ ¬ (Same x y)
Same-cases (k, u, r) (j, v, q) = elim (Bool-cases (k == j)) [
  | inr differ ↦ inr (λ s. ground (arith, s.0))
  | inl same_k ↦ elim (Bool-cases (u == v)) [
    | inr differ ↦ inr (λ s. ground (arith, s.1))
    | inl same_u ↦ elim (Bool-cases (same_role r q)) [
      | inr differ ↦ inr (λ s. ground (arith, ap (λ x. same_role r x) (sym s.2), same_role_refl r))
      | inl same_r ↦ inl (ground arith, ground arith, same_role→≡ r q same_r)
    ]
  ]
]

module _ (p : Platform) (db db' : Tenancy) (e e' : p.Enforcer) (mirrored : IsMirrored p db e)
    (domains : HasDomains db) (tenant : ℕ) (t : Tenant) (there : get_tenant_row tenant db ≡ some t)
    (same : db'.tenants ≡ db.tenants) where
  apart :
      (k user u : ℕ) (role r : TenantRole) (t' : Tenant)
      → get_tenant_row k db ≡ some t'
      → ¬ (Same (k, u, r) (tenant, user, role))
      → grouping u r t'.slug ≢ grouping user role t.slug
  apart k user u role r t' found ne g =
      let s = grouping-injective u user r role t'.slug t.slug g in
      ne (domains k tenant t' t found there s.2, s.0, s.1)

  found_before :
      (k : ℕ) (t' : Tenant) → get_tenant_row k db' ≡ some t' → get_tenant_row k db ≡ some t'
  found_before k t' found = ap (get_row tenant_key k) (sym same) ∙ found

  -- In the place itself, the tenant found is `t`.
  in_place :
      (k user u : ℕ) (role r : TenantRole) (t' : Tenant)
      → get_tenant_row k db ≡ some t'
      → Same (k, u, r) (tenant, user, role)
      → grouping u r t'.slug ≡ grouping user role t.slug
  in_place k user u role r t' found s =
      let one : t' ≡ t = ground (arith, s.0) in
      ap (λ (x : Tenant). grouping u r x.slug) one
      ∙ ap (λ x. grouping x r t.slug) s.1
      ∙ ap (λ x. grouping user x t.slug) s.2

  has_in_place :
      (k user u : ℕ) (role r : TenantRole)
      → Same (k, u, r) (tenant, user, role)
      → has_role k u r db' ≡ has_role tenant user role db'
  has_in_place k user u role r s =
      ap (λ x. has_role x u r db') s.0
      ∙ ap (λ x. has_role tenant x r db') s.1
      ∙ ap (λ x. has_role tenant user x db') s.2

  pub IsMirrored-set :
      (user : ℕ) (role : TenantRole) (b : Bool)
      → IsSetTo p (grouping user role t.slug) b e e'
      → has_role tenant user role db' ≡ b
      → ((k u : ℕ) (r : TenantRole)
          → ¬ (Same (k, u, r) (tenant, user, role))
          → has_role k u r db' ≡ has_role k u r db)
      → IsMirrored p db' e'
  IsMirrored-set user role b set here others k t' u r found =
      let before = found_before k t' found in
      elim (Same-cases (k, u, r) (tenant, user, role)) [
        | inl s ↦
            ap (λ g. p.has_grouping g e') (in_place k user u role r t' before s)
            ∙ set.0
            ∙ sym here
            ∙ sym (has_in_place k user u role r s)
        | inr ne ↦
            set.1 (grouping u r t'.slug) (apart k user u role r t' before ne)
            ∙ mirrored k t' u r before
            ∙ sym (others k u r ne)
      ]

  pub IsMirrored-swap :
      (user : ℕ) (old new : TenantRole)
      → IsSwapped p (grouping user old t.slug) (grouping user new t.slug) e e'
      → has_role tenant user old db' ≡ false
      → has_role tenant user new db' ≡ true
      → ((k u : ℕ) (r : TenantRole)
          → ¬ (Same (k, u, r) (tenant, user, old))
          → ¬ (Same (k, u, r) (tenant, user, new))
          → has_role k u r db' ≡ has_role k u r db)
      → IsMirrored p db' e'
  IsMirrored-swap user old new swap gone here others k t' u r found =
      let before = found_before k t' found in
      elim (Same-cases (k, u, r) (tenant, user, old)) [
        | inl s ↦
            ap (λ g. p.has_grouping g e') (in_place k user u old r t' before s)
            ∙ swap.0
            ∙ sym gone
            ∙ sym (has_in_place k user u old r s)
        | inr ne ↦ elim (Same-cases (k, u, r) (tenant, user, new)) [
          | inl s ↦
              ap (λ g. p.has_grouping g e') (in_place k user u new r t' before s)
              ∙ swap.1
              ∙ sym here
              ∙ sym (has_in_place k user u new r s)
          | inr ne' ↦
              swap.2 (grouping u r t'.slug) (apart k user u old r t' before ne)
                (apart k user u new r t' before ne')
              ∙ mirrored k t' u r before
              ∙ sym (others k u r ne ne')
        ]
      ]
