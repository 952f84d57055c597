-- ===== src/Tenancy/Mirror/Stages.antt =====
-- What the stages of the handlers do to the mirrored rows and groupings.
use slot_booking.Base.{ℕ, true, false, ◌≡◌, inl, inr, refl, sym, ap, ◌∙◌, some, Bool-cases, arith}
use slot_booking.Effects.{◌>>=◌, Action, Result, ok, err, continue}
use slot_booking.Tenancy.Rows.{TenantMember, TenantRole, Tenancy, same_role}
use slot_booking.Tenancy.Session.{Platform, Site}
use slot_booking.Tenancy.Mirror.{is_role_of, IsMirrored, same_role→≡, same_role_refl}
use slot_booking.Tenancy.Mirror.View.{Same}

-- What follows a stage and leaves the committed rows and the enforcer alone.
pub quiet :
    {p : Platform} {A B : Type 0} (r : Result A × Site p) (f : A → Action (Site p) B)
    → ((a : A) (w : Site p) → ((f a w).1.saved ≡ w.saved) × ((f a w).1.enforcer ≡ w.enforcer))
    → ((continue r f).1.saved ≡ r.1.saved) × ((continue r f).1.enforcer ≡ r.1.enforcer)
quiet (ok a, w) f still = still a w
quiet (err e, w) f still = (refl, refl)

-- A row of a user's role in a tenant answers for that place alone.
pub own_place :
    (k user : ℕ) (role : TenantRole) (m : TenantMember)
    → m.tenant_id ≡ some k
    → m.user_id ≡ some user
    → m.role ≡ role
    → is_role_of k user role m ≡ true
own_place k user role m of_tenant of_user of_role =
    ground (arith, of_tenant, of_user, ap (λ r. same_role r role) of_role, same_role_refl role)

pub other_place :
    (k user j u : ℕ) (role r : TenantRole) (m : TenantMember)
    → m.tenant_id ≡ some k
    → m.user_id ≡ some user
    → m.role ≡ role
    → ¬ (Same (j, u, r) (k, user, role))
    → is_role_of j u r m ≡ false
other_place k user j u role r m of_tenant of_user of_role ne =
    elim (Bool-cases (is_role_of j u r m)) [
      | inr e ↦ e
      | inl e ↦ absurd (
          ne (
            ground (arith, of_tenant),
            ground (arith, of_user),
            sym (same_role→≡ role r (ground (arith, ap (λ q. same_role q r) of_role))),
          ))
    ]

-- A predicate of equal tables and enforcers.
transport :
    (p : Platform) (Q : Tenancy → p.Enforcer → Type 0) {db db' : Tenancy} {e e' : p.Enforcer}
    → (db' ≡ db) × (e' ≡ e)
    → Q db e
    → Q db' e'
transport p Q (same_db, same_e) holds = rw (same_db, same_e) holds

pub IsMirrored-≡ :
    (p : Platform) {db db' : Tenancy} {e e' : p.Enforcer}
    → (db' ≡ db) × (e' ≡ e)
    → IsMirrored p db e
    → IsMirrored p db' e'
IsMirrored-≡ p same mirrored = rw (same.0, same.1) mirrored

-- That what an action commits and leaves to the enforcer satisfies a predicate.
pub record Keeps {p : Platform} {A : Type 0} (Q : Tenancy → p.Enforcer → Type 0)
    (act : Action (Site p) A) (w : Site p) : Type 0 where
  pub kept : Q (act w).1.saved (act w).1.enforcer

module _ {p : Platform} (Q : Tenancy → p.Enforcer → Type 0) where
  pub stays :
      {A : Type 0} (act : Action (Site p) A) (w : Site p) (db : Tenancy)
      → (act w).1.saved ≡ db
      → (act w).1.enforcer ≡ w.enforcer
      → Q db w.enforcer
      → Keeps Q act w
  stays act w db same_db same_e holds = record { kept = transport p Q (same_db, same_e) holds }

  -- Two actions that end alike.
  pub Keeps-≡ :
      {A B : Type 0} (act : Action (Site p) A) (act' : Action (Site p) B) (w v : Site p)
      → ((act' v).1.saved ≡ (act w).1.saved) × ((act' v).1.enforcer ≡ (act w).1.enforcer)
      → Keeps Q act w
      → Keeps Q act' v
  Keeps-≡ act act' w v same keeps = record { kept = transport p Q same keeps.kept }

  -- A guard that changes nothing, and what follows where it passes.
  pub guarded :
      {A B : Type 0} (act : Action (Site p) A) (f : A → Action (Site p) B) (w : Site p)
      → (act w).1 ≡ w
      → Q w.saved w.enforcer
      → ((a : A) → act w ≡ (ok a, w) → Keeps Q (f a) w)
      → Keeps Q (act >>= f) w
  guarded {A} {B} act f w still holds next = after (act w) refl
    where
      after : (r : Result A × Site p) → act w ≡ r → Keeps Q (act >>= f) w
      after (ok a, v) e =
          let same : v ≡ w = sym (ap (λ x. x.1) e) ∙ still in
          let passed : act w ≡ (ok a, w) = e ∙ ap (λ x. (ok a, x)) same in
          Keeps-≡ (f a) (act >>= f) w w
            (ap (λ r. (continue r f).1.saved) passed, ap (λ r. (continue r f).1.enforcer) passed)
            (next a passed)
      after (err d, v) e =
          let same : v ≡ w = sym (ap (λ x. x.1) e) ∙ still in
          let failed : act w ≡ (err d, w) = e ∙ ap (λ x. (err d, x)) same in
          stays (act >>= f) w w.saved (ap (λ r. (continue r f).1.saved) failed)
            (ap (λ r. (continue r f).1.enforcer) failed) holds
