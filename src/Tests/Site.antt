-- ===== src/Tests/Site.antt =====
-- An enforcer and a connection that fail by a schedule, or never, and a small tenant.
use slot_booking.Base.{
  ℕ, suc, ◌≡◌, ◌∙◌, ◌≢◌, refl, sym, ap, Bool, true, false, not, ◌&&◌, ◌||◌, List, [], ◌∷◌, max, any,
  leb, All, map, select, if◌then◌else◌, arith, inl, inr, Bool-cases,
}
use text.Mathlib.TextEquality.{eq_iff}
use slot_booking.Base.Text.{str, str_eq, str_eq_refl, ◌+++◌}
use slot_booking.Tenancy.{same_role, TenantMember, member_key}
use slot_booking.Tenancy.Mirror.Keys.{IsFresh}
use slot_booking.Tenancy.{Platform, EnforcerLaws, Grouping}
use slot_booking.Tenancy.Mirror.{same_role→≡, same_role_refl}

abbrev same_grouping : Grouping → Grouping → Bool
same_grouping g h = str_eq g.user h.user && same_role g.role h.role && str_eq g.domain h.domain

abbrev holds_grouping : Grouping → List Grouping → Bool
holds_grouping g groupings = any (same_grouping g) groupings

abbrev drop_grouping : Grouping → List Grouping → List Grouping
drop_grouping g groupings = select (λ h. not (same_grouping g h)) groupings

-- The next outcome of the schedule: whether the call fails, and what comes after.
abbrev next_fault : List Bool → Bool × List Bool
next_fault [] = (false, [])
next_fault (b ∷ faults) = (b, faults)

abbrev call_outcome :
    Bool
    → (List Grouping → List Grouping)
    → List Grouping × List Bool
    → Bool × (List Grouping × List Bool)
call_outcome steady f (groupings, faults) =
    if not steady && (next_fault faults).0
    then (false, (groupings, (next_fault faults).1))
    else (true, (f groupings, (next_fault faults).1))

abbrev above : List ℕ → ℕ
above [] = 1
above (n ∷ ns) = max (suc n) (above ns)

-- Where `steady`, the enforcer never fails, and where `sound`, commits never do; else by schedule.
abbrev pub platform : Bool → Bool → Platform
platform steady sound = record {
  Enforcer = List Grouping × List Bool;
  add_role_for_user_in_domain = λ g. call_outcome steady (λ groupings. g ∷ groupings);
  remove_grouping_policy = λ g. call_outcome steady (drop_grouping g);
  has_grouping = λ g e. holds_grouping g e.0;
  Connection = List Bool;
  try_commit = λ faults. (sound || not (next_fault faults).0, (next_fault faults).1);
  reads_expired = false;
  new_id = above;
  uuid4 = λ n. "token-" +++ str n;
}

same_grouping_refl : (g : Grouping) → same_grouping g g ≡ true
same_grouping_refl g =
    ground (arith, str_eq_refl g.user, str_eq_refl g.domain, same_role_refl g.role)

same_grouping→≡ : (h g : Grouping) → same_grouping h g ≡ true → h ≡ g
same_grouping→≡ h g e =
    ground
      (arith, (eq_iff h.user g.user).0, (eq_iff h.domain g.domain).0, same_role→≡ h.role g.role)

same_grouping_ne : (h g : Grouping) → h ≢ g → same_grouping h g ≡ false
same_grouping_ne h g ne = elim (Bool-cases (same_grouping h g)) [
  | inr e ↦ e
  | inl e ↦ absurd (ne (same_grouping→≡ h g e))
]

dropped_self : (g : Grouping) (l : List Grouping) → holds_grouping g (drop_grouping g l) ≡ false
dropped_self g [] = refl
dropped_self g (x ∷ l) = ground (arith, dropped_self g l)

dropped_other :
    (g h : Grouping) (l : List Grouping)
    → h ≢ g
    → holds_grouping h (drop_grouping g l) ≡ holds_grouping h l
dropped_other g h [] ne = refl
dropped_other g h (x ∷ l) ne = elim (Bool-cases (same_grouping g x)) [
  | inr e ↦ ground (arith, dropped_other g h l ne)
  | inl e ↦
      let apart : same_grouping h x ≡ false =
        ap (same_grouping h) (sym (same_grouping→≡ g x e)) ∙ same_grouping_ne h g ne in
      cc (dropped_other g h l ne)
]

above-fresh :
    (n : ℕ) (rows : List TenantMember)
    → leb (above (map member_key rows)) n ≡ true
    → All (λ (x : TenantMember). x.id ≢ n) rows
above-fresh n [] e = tt
above-fresh n (x ∷ rows) e = (λ same. ground arith, above-fresh n rows (ground arith))

pub platform-IsFresh : (steady sound : Bool) → IsFresh (platform steady sound)
platform-IsFresh steady sound rows = above-fresh (above (map member_key rows)) rows (ground arith)

pub enforcer_laws : (steady sound : Bool) → EnforcerLaws (platform steady sound)
enforcer_laws steady sound = record {
  added = λ g e done. ground (arith, same_grouping_refl g);
  not_added = λ g e raised. ground arith;
  added_other = λ g h e ne. ground (arith, same_grouping_ne h g ne);
  removed = λ g e done. ground (arith, dropped_self g e.0);
  not_removed = λ g e raised. ground arith;
  removed_other = λ g h e ne. ground (arith, dropped_other g h e.0 ne);
}
