-- ===== src/Booking/Generate/Pieces.antt =====
-- The slots that `generate_slots_for_resource` cuts from its window of wall-clock time.
use mathlib.Core.List.{append-nil, append_assoc}
use slot_booking.Base.{
  ℕ, zero, suc, ◌+◌, max, min, ◌≤◌, ◌<◌, ◌≡◌, refl, sym, ap, ◌∙◌, false, ◌&&◌, inl, inr, List, [],
  ◌∷◌, ◌++◌, Option, none, some, subst, map, length, length-append, select, any, leb, ltb, ◌==◌,
  All, All-append, All-select_sub, Bool-cases, Option-cases, arith,
}
use slot_booking.Models.{Resource, Slot, SlotStatus, AvailabilityRule, get_resource}
use slot_booking.Models.Windows.{IsRule}
use slot_booking.Effects.{Services, World, ok, minutes, days, Action, continue_ok, pure, ◌>>=◌}
use slot_booking.Booking.Generate.{
  Window, blocks, same_times, generated_slot, offer_slot, add, cut_window, rule_fuel, cut_rule,
  cut_rules, cut_days, day_fuel, weekday, rules_of, window_of, midnight_before,
  generate_slots_for_resource,
}

-- An open slot of the resource, cut from the window asked for, over which no exception lies.
pub record IsCut (s : Services) (v : Window) (x : Slot) : Type 0 where
  pub from : ℕ
  pub until : ℕ
  pub after_start : v.start_local ≤ from
  pub lasts : from < until
  pub before_end : until ≤ v.end_local
  pub starts : x.starts_at ≡ s.to_utc v.resource.timezone from
  pub ends : x.ends_at ≡ s.to_utc v.resource.timezone until
  pub unblocked : any (blocks x.starts_at x.ends_at) v.exceptions ≡ false
  pub is_open : x.status ≡ SlotStatus.open_
  pub not_held : x.hold_expires_at ≡ none
  pub of_resource : x.resource_id ≡ v.resource.id
  pub of_tenant : x.tenant_id ≡ v.resource.tenant_id

-- `m` such slots were added to the session, and nothing else changed.
abbrev pub Added : {s : Services} → Window → World s → World s → ℕ → Type 0
Added {s} v w w' m =
    (more : List Slot) × (w' ≡ record w { db = record w.db { slots = w.db.slots ++ more } })
    × (length more ≡ m)
    × All (IsCut s v) more

add-some :
    (a b : Option ℕ) (n : ℕ)
    → add a b ≡ some n
    → (i : ℕ) × (j : ℕ) × (a ≡ some i) × (b ≡ some j) × (n ≡ i + j)
add-some none b n h = absurd (ground arith)
add-some (some i) none n h = absurd (ground arith)
add-some (some i) (some j) n h = (i, j, refl, refl, ground arith)

module _ {s : Services} (v : Window) where
  Added-none : (w w' : World s) (n : ℕ) → w' ≡ w → n ≡ 0 → Added v w w' n
  Added-none w w' n same e = ([], same ∙ simp append-nil, sym e, tt)

  Added-both : (u w w' : World s) (m n : ℕ) → Added v u w m → Added v w w' n → Added v u w' (m + n)
  Added-both u w w' m n (xs, e, p, h) (ys, f, q, k) = (
    xs ++ ys,
    f ∙ rw e (simp append_assoc),
    length-append xs ys ∙ omega (arith, p, q),
    All-append (IsCut s v) xs ys h k,
  )

  offer_slot-Added :
      (from until : ℕ) (w w' : World s) (n : ℕ)
      → v.start_local ≤ from
      → from < until
      → until ≤ v.end_local
      → offer_slot v (s.to_utc v.resource.timezone from) (s.to_utc v.resource.timezone until) w
        ≡ (ok n, w')
      → Added v w w' n
  unfolding offer_slot
  offer_slot-Added from until w w' n low lasts high h =
      let starts = s.to_utc v.resource.timezone from in
      let ends = s.to_utc v.resource.timezone until in
      elim (Bool-cases (any (blocks starts ends) v.exceptions)) [
        | inl e ↦ Added-none w w' n (ground arith) (ground arith)
        | inr e ↦ by_rows e (select (same_times v.resource.id starts ends) w.db.slots) refl
      ]
    where
      by_rows :
          any
              (blocks (s.to_utc v.resource.timezone from) (s.to_utc v.resource.timezone until))
              v.exceptions
            ≡ false
          → (rows : List Slot)
          → select
              (same_times v.resource.id
                (s.to_utc v.resource.timezone from)
                (s.to_utc v.resource.timezone until))
              w.db.slots
            ≡ rows
          → Added v w w' n
      by_rows free [] e = (
        generated_slot v.resource (s.new_id (map (λ (x : Slot). x.id) w.db.slots))
              (s.to_utc v.resource.timezone from) (s.to_utc v.resource.timezone until)
            ∷ [],
        ground arith,
        ground arith,
        (
          record {
            from = from;
            until = until;
            after_start = low;
            lasts = lasts;
            before_end = high;
            starts = refl;
            ends = refl;
            unblocked = free;
            is_open = refl;
            not_held = refl;
            of_resource = refl;
            of_tenant = refl;
          },
          tt,
        ),
      )
      by_rows free (x ∷ []) e = Added-none w w' n (ground arith) (ground arith)
      by_rows free (x ∷ y ∷ rows) e = absurd (ground arith)

  -- Two parts whose counts are added.
  both-Added :
      (f g : Action (World s) (Option ℕ)) (w w' : World s) (n : ℕ)
      → ((u : World s) (i : ℕ) → f w ≡ (ok (some i), u) → Added v w u i)
      → ((u u' : World s) (j : ℕ) → g u ≡ (ok (some j), u') → Added v u u' j)
      → (f >>= λ (a : Option ℕ). g >>= λ (b : Option ℕ). pure (add a b)) w ≡ (ok (some n), w')
      → Added v w w' n
  both-Added f g w w' n first second h =
      let (a, ea, ha) =
        continue_ok (f w) (λ (a : Option ℕ). g >>= λ (b : Option ℕ). pure (add a b)) (some n) w'
          h in
      let (b, eb, hb) = continue_ok (g (f w).1) (λ (b : Option ℕ). pure (add a b)) (some n) w' ha in
      let (i, j, ei, ej, sum) = add-some a b n (ground arith) in
      let u = (f w).1 in
      let one = first u i (ea ∙ ap (λ (o : Option ℕ). (ok o, u)) ei) in
      let two = second u w' j (eb ∙ ground (arith, hb)) in
      subst (λ k. Added v w w' k) (sym sum) (Added-both w u w' i j one two)

  cut_window-Added :
      (fuel duration limit cursor : ℕ) (w w' : World s) (n : ℕ)
      → 1 ≤ duration
      → v.start_local ≤ cursor
      → limit ≤ v.end_local
      → cut_window fuel v duration limit cursor w ≡ (ok (some n), w')
      → Added v w w' n
  unfolding cut_window
  cut_window-Added zero duration limit cursor w w' n pos low high h = absurd (ground arith)
  cut_window-Added (suc fuel) duration limit cursor w w' n pos low high h =
      let next = cursor + minutes duration in
      let offer : Action (World s) ℕ =
        offer_slot v (s.to_utc v.resource.timezone cursor) (s.to_utc v.resource.timezone next) in
      elim (Bool-cases (leb next limit)) [
        | inr e ↦ Added-none w w' n (ground arith) (ground arith)
        | inl e ↦
            both-Added (offer >>= λ (k : ℕ). pure (some k)) (cut_window fuel v duration limit next)
              w w' n
              (λ u i offered.
                offer_slot-Added cursor next w u i low (omega (arith, pos)) (ground arith)
                  (ground arith))
              (λ u u' j rest.
                cut_window-Added fuel duration limit next u u' j pos (omega (arith, low)) high rest)
              (ground arith)
      ]

  cut_rules-Added :
      (current : ℕ) (rules : List AvailabilityRule) (w w' : World s) (n : ℕ)
      → All IsRule rules
      → cut_rules v current rules w ≡ (ok (some n), w')
      → Added v w w' n
  unfolding cut_rules cut_rule
  cut_rules-Added current [] w w' n valid h = Added-none w w' n (ground arith) (ground arith)
  cut_rules-Added current (rule ∷ rules) w w' n valid h =
      both-Added (cut_rule v current rule) (cut_rules v current rules) w w' n
        (λ u i cut.
          cut_window-Added rule_fuel rule.slot_duration_min
            (min (current + minutes rule.end_minute) v.end_local)
            (max (current + minutes rule.start_minute) v.start_local) w u i (omega (arith, valid.0))
            (omega arith) (omega arith) cut)
        (λ u u' j rest. cut_rules-Added current rules u u' j valid.1 rest) h

  cut_days-Added :
      (fuel : ℕ) (rules : List AvailabilityRule) (current : ℕ) (w w' : World s) (n : ℕ)
      → All IsRule rules
      → cut_days fuel v rules current w ≡ (ok (some n), w')
      → Added v w w' n
  unfolding cut_days
  cut_days-Added zero rules current w w' n valid h = absurd (ground arith)
  cut_days-Added (suc fuel) rules current w w' n valid h =
      let today = select (λ (r : AvailabilityRule). r.day_of_week == weekday current) rules in
      let hold =
        All-select_sub (λ (r : AvailabilityRule). r.day_of_week == weekday current) IsRule rules
          valid in
      elim (Bool-cases (ltb current v.end_local)) [
        | inr e ↦ Added-none w w' n (ground arith) (ground arith)
        | inl e ↦
            both-Added (cut_rules v current today) (cut_days fuel v rules (current + days 1)) w w' n
              (λ u i cut. cut_rules-Added current today w u i hold cut)
              (λ u u' j rest. cut_days-Added fuel rules (current + days 1) u u' j valid rest)
              (ground arith)
      ]

-- Each slot that is added is cut from the window.
pub generate_slots_for_resource-Cuts :
    {s : Services} (resource_id window_start window_end : ℕ) (w w' : World s) (n : ℕ)
    → All IsRule w.db.rules
    → generate_slots_for_resource resource_id window_start window_end w ≡ (ok (some n), w')
    → (r : Resource) × (get_resource resource_id w.db ≡ some r)
      × Added (window_of s r resource_id w.db window_start window_end) w w' n
unfolding generate_slots_for_resource
generate_slots_for_resource-Cuts {s} resource_id window_start window_end w w' n valid h =
    elim (Option-cases (get_resource resource_id w.db)) [
      | inl e ↦ absurd (ground arith)
      | inr (r, e) ↦
          let v = window_of s r resource_id w.db window_start window_end in
          let midnight = midnight_before v.start_local in
          (
            r,
            e,
            cut_days-Added v (day_fuel midnight v.end_local) (rules_of resource_id w.db) midnight w
                w' n
                (All-select_sub
                  (λ (x : AvailabilityRule). x.resource_id == resource_id && x.is_active) IsRule
                  w.db.rules valid)
                (ground (arith, e)),
          )
    ]
