-- ===== src/Tenancy/Access/Guards.antt =====
-- The guards of the routes change nothing.
use slot_booking.Base.{ℕ, ◌≡◌, refl, inl, inr, Option, none, some, Option-cases, arith}
use slot_booking.Effects.{Error, ok, or_raise}
use slot_booking.Tenancy.Rows.{Tenancy, Tenant, TenantRole, User, get_tenant_row}
use slot_booking.Tenancy.Session.{Platform, Site, read}
use slot_booking.Tenancy.Access.{get_tenant_or_404, require_tenant_role, active_membership}

module _ {p : Platform} where
  pub require_tenant_role-still :
      (k : ℕ) (user : User) (role : TenantRole) (w : Site p)
      → (require_tenant_role k user role w).1 ≡ w
  unfolding require_tenant_role
  require_tenant_role-still k user role w = elim (Option-cases (active_membership k user.id w.db)) [
    | inl e ↦ ground arith
    | inr (m, e) ↦ ground arith
  ]

  pub get_tenant_or_404-still : (k : ℕ) (w : Site p) → (get_tenant_or_404 k w).1 ≡ w
  unfolding get_tenant_or_404
  get_tenant_or_404-still k w = elim (Option-cases (get_tenant_row k w.db)) [
    | inl e ↦ ground arith
    | inr (t, e) ↦ ground arith
  ]

  pub get_tenant_or_404-found :
      (k : ℕ) (w : Site p) (t : Tenant)
      → get_tenant_or_404 k w ≡ (ok t, w)
      → get_tenant_row k w.db ≡ some t
  unfolding get_tenant_or_404
  get_tenant_or_404-found k w t h = elim (Option-cases (get_tenant_row k w.db)) [
    | inl e ↦ absurd (ground arith)
    | inr (t', e) ↦ ground arith
  ]

  pub or_raise-still : {A : Type 0} (o : Option A) (e : Error) (w : Site p) → (or_raise o e w).1 ≡ w
  or_raise-still none e w = refl
  or_raise-still (some a) e w = refl

  pub or_raise-found :
      {A : Type 0} (o : Option A) (e : Error) (w : Site p) (a : A)
      → or_raise o e w ≡ (ok a, w)
      → o ≡ some a
  or_raise-found none e w a h = absurd (ground arith)
  or_raise-found (some b) e w a h = ground arith

  pub read-value :
      {A : Type 0} (f : Tenancy → A) (a : A) (w : Site p) → read f w ≡ (ok a, w) → f w.db ≡ a
  read-value f a w h = ground arith
