-- ===== src/Booking/Generate/Cuts.antt =====
-- The slots that `generate_slots_for_resource` adds, and that its loops end.
use slot_booking.Base.{
  ℕ, zero, suc, ◌+◌, ◌-◌, ◌*◌, ◌/◌, max, min, ◌≤◌, ◌<◌, ◌≢◌, ◌&&◌, inl, inr, List, [], ◌∷◌, Option,
  none, select, leb, ltb, ◌==◌, All, All-select_sub, Bool-cases, Option-cases, arith,
}
use slot_booking.Models.{AvailabilityRule, get_resource}
use slot_booking.Models.Windows.{IsRule}
use slot_booking.Effects.{Services, World, Result, ok, minutes, days}
use slot_booking.Booking.Generate.{
  Window, offer_slot, cut_window, cut_rule, cut_rules, cut_days, weekday, rules_of, window_of,
  midnight_before, generate_slots_for_resource,
}

-- The outcome of a loop that did not run out of fuel.
abbrev Ends : {W : Type 0} → Result (Option ℕ) × W → Type 0
Ends r = r.0 ≢ ok none

module _ {s : Services} (v : Window) where
  cut_window-Ends :
      (fuel duration limit cursor : ℕ) (w : World s)
      → 1 ≤ duration
      → limit < cursor + suc fuel * minutes duration
      → Ends (cut_window (suc fuel) v duration limit cursor w)
  unfolding cut_window
  cut_window-Ends zero duration limit cursor w pos h = ground arith
  cut_window-Ends (suc fuel) duration limit cursor w pos h =
      let u =
        (offer_slot v (s.to_utc v.resource.timezone cursor)
          (s.to_utc v.resource.timezone (cursor + minutes duration)) w).1 in
      elim (Bool-cases (leb (cursor + minutes duration) limit)) [
        | inr e ↦ ground arith
        | inl e ↦ ground (
          arith,
          cut_window-Ends fuel duration limit (cursor + minutes duration) u pos (ground arith),
        )
      ]

  cut_rule-Ends :
      (current : ℕ) (rule : AvailabilityRule) (w : World s)
      → IsRule rule
      → Ends (cut_rule v current rule w)
  unfolding cut_rule
  cut_rule-Ends current rule w valid =
      cut_window-Ends 1440 rule.slot_duration_min
        (min (current + minutes rule.end_minute) v.end_local)
        (max (current + minutes rule.start_minute) v.start_local) w (omega (arith, valid))
        (omega (arith, valid))

  cut_rules-Ends :
      (current : ℕ) (rules : List AvailabilityRule) (w : World s)
      → All IsRule rules
      → Ends (cut_rules v current rules w)
  unfolding cut_rules
  cut_rules-Ends current [] w valid = ground arith
  cut_rules-Ends current (rule ∷ rules) w valid = ground (
    arith,
    cut_rule-Ends current rule w valid.0,
    cut_rules-Ends current rules (cut_rule v current rule w).1 valid.1,
  )

  -- A midnight before the end has a day less to go.
  cut_days-Ends :
      (fuel : ℕ) (rules : List AvailabilityRule) (current : ℕ) (w : World s)
      → All IsRule rules
      → v.end_local ≤ current + fuel * days 1
      → Ends (cut_days (suc fuel) v rules current w)
  unfolding cut_days
  cut_days-Ends zero rules current w valid h = ground arith
  cut_days-Ends (suc fuel) rules current w valid h =
      let today = select (λ (r : AvailabilityRule). r.day_of_week == weekday current) rules in
      let first = cut_rules-Ends current today w (
        All-select_sub (λ (r : AvailabilityRule). r.day_of_week == weekday current) IsRule rules
          valid) in
      elim (Bool-cases (ltb current v.end_local)) [
        | inr e ↦ ground arith
        | inl e ↦ ground (
          arith,
          first,
          cut_days-Ends fuel rules (current + days 1) (cut_rules v current today w).1 valid
              (omega (arith, h)),
        )
      ]

-- Generating slots ends: with rules as the availability routes leave them, no loop runs out of fuel.
pub generate_slots_for_resource_ends :
    {s : Services} (resource_id window_start window_end : ℕ) (w : World s)
    → All IsRule w.db.rules
    → (generate_slots_for_resource resource_id window_start window_end w).0 ≢ ok none
unfolding generate_slots_for_resource
generate_slots_for_resource_ends {s} resource_id window_start window_end w valid =
    elim (Option-cases (get_resource resource_id w.db)) [
      | inl e ↦ ground arith
      | inr (resource, e) ↦
          let v = window_of s resource resource_id w.db window_start window_end in
          let midnight = midnight_before v.start_local in
          rw e (
            cut_days-Ends v (suc ((v.end_local - midnight) / days 1)) (rules_of resource_id w.db)
              midnight w
              (All-select_sub
                (λ (r : AvailabilityRule). r.resource_id == resource_id && r.is_active) IsRule
                w.db.rules valid)
              (omega arith))
    ]
