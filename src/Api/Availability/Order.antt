-- ===== src/Api/Availability/Order.antt =====
-- The rules and exceptions that the availability routes leave in the database.
use slot_booking.Base.{
  ℕ, ◌≤◌, ◌≡◌, refl, inl, inr, Option, none, some, All, All-append, arith, Option-cases, Bool-cases,
  leb, ◌==◌,
}
use slot_booking.Models.{Database, AvailabilityRule, AvailabilityException, get_resource}
use slot_booking.Models.Windows.{IsRule, IsException}
use slot_booking.Models.Laws.{All-put_row, All-remove_row, All-get_row}
use slot_booking.Effects.{Services, World}
use slot_booking.Api.Availability.{
  AvailabilityRuleCreate, AvailabilityRuleUpdate, AvailabilityExceptionCreate,
  AvailabilityExceptionUpdate, or_old, get_rule, get_exception, updated_rule, updated_exception,
  create_availability_rule, update_availability_rule, delete_availability_rule,
  create_availability_exception, update_availability_exception, delete_availability_exception,
}

abbrev pub InOrder : Database → Type 0
InOrder db = All IsRule db.rules × All IsException db.exceptions

-- What the schema lets through.
abbrev pub IsRuleCreate : AvailabilityRuleCreate → Type 0
IsRuleCreate p =
    (p.day_of_week ≤ 6)
    × (p.end_minute ≤ 1440)
    × (5 ≤ p.slot_duration_min)
    × (p.slot_duration_min ≤ 720)

abbrev pub IsRuleUpdate : AvailabilityRuleUpdate → Type 0
IsRuleUpdate p =
    ((n : ℕ) → p.day_of_week ≡ some n → n ≤ 6)
    × ((n : ℕ) → p.end_minute ≡ some n → n ≤ 1440)
    × ((n : ℕ) → p.slot_duration_min ≡ some n → (5 ≤ n) × (n ≤ 720))

-- A call of one of the routes that write.
pub data Call {s : Services} : World s → World s → Type 1 where
  create_rule :
      (resource_id : ℕ) (p : AvailabilityRuleCreate) (w : World s)
      → IsRuleCreate p
      → Call w (create_availability_rule resource_id p w).1
  update_rule :
      (rule_id : ℕ) (p : AvailabilityRuleUpdate) (w : World s)
      → IsRuleUpdate p
      → Call w (update_availability_rule rule_id p w).1
  delete_rule : (rule_id : ℕ) (w : World s) → Call w (delete_availability_rule rule_id w).1
  create_exception :
      (resource_id : ℕ) (p : AvailabilityExceptionCreate) (w : World s)
      → Call w (create_availability_exception resource_id p w).1
  update_exception :
      (exception_id : ℕ) (p : AvailabilityExceptionUpdate) (w : World s)
      → Call w (update_availability_exception exception_id p w).1
  delete_exception :
      (exception_id : ℕ) (w : World s) → Call w (delete_availability_exception exception_id w).1

-- Calls one after the other.
pub data Calls {s : Services} : World s → World s → Type 1 where
  done : (w : World s) → Calls w w
  next : (u v w : World s) → Call u v → Calls v w → Calls u w

or_old_holds {ℓ} :
    {A : Type 0} (P : A → Type ℓ) (new : Option A) (old : A)
    → ((a : A) → new ≡ some a → P a)
    → P old
    → P (or_old new old)
or_old_holds P none old h k = k
or_old_holds P (some a) old h k = h a refl

module _ {s : Services} (w : World s) (order : InOrder w.db) where
  create_availability_rule-InOrder :
      (resource_id : ℕ) (p : AvailabilityRuleCreate)
      → IsRuleCreate p
      → InOrder (create_availability_rule resource_id p w).1.db
  unfolding create_availability_rule
  create_availability_rule-InOrder resource_id p valid =
      elim (Option-cases (get_resource resource_id w.db)) [
        | inl e ↦ rw e order
        | inr (r, e) ↦ elim (Bool-cases (r.tenant_id == p.tenant_id)) [
          | inr f ↦ rw (e, f) order
          | inl f ↦ elim (Bool-cases (leb p.end_minute p.start_minute)) [
            | inl g ↦ rw (e, f, g) order
            | inr g ↦
                rw (e, f, g)
                  (
                    All-append IsRule w.db.rules _ order.0
                        ((valid.0, ground arith, valid.1, valid.2, valid.3), tt),
                    order.1,
                  )
          ]
        ]
      ]

  update_availability_rule-InOrder :
      (rule_id : ℕ) (p : AvailabilityRuleUpdate)
      → IsRuleUpdate p
      → InOrder (update_availability_rule rule_id p w).1.db
  unfolding update_availability_rule
  update_availability_rule-InOrder rule_id p valid = elim (Option-cases (get_rule rule_id w.db)) [
    | inl e ↦ rw e order
    | inr (r, e) ↦
        let old =
          All-get_row (λ (x : AvailabilityRule). x.id) IsRule rule_id w.db.rules e order.0 in
        let long =
          or_old_holds (λ n. (5 ≤ n) × (n ≤ 720)) p.slot_duration_min r.slot_duration_min valid.2
            (old.3, old.4) in
        elim (Bool-cases
          (leb (or_old p.end_minute r.end_minute) (or_old p.start_minute r.start_minute))) [
            | inl g ↦ rw (e, g) order
            | inr g ↦
                rw (e, g)
                  (
                    All-put_row (λ (x : AvailabilityRule). x.id) IsRule (updated_rule r p)
                        w.db.rules
                        (
                          or_old_holds (λ n. n ≤ 6) p.day_of_week r.day_of_week valid.0 old.0,
                          ground arith,
                          or_old_holds (λ n. n ≤ 1440) p.end_minute r.end_minute valid.1 old.2,
                          long.0,
                          long.1,
                        )
                        order.0,
                    order.1,
                  )
          ]
  ]

  delete_availability_rule-InOrder :
      (rule_id : ℕ) → InOrder (delete_availability_rule rule_id w).1.db
  unfolding delete_availability_rule
  delete_availability_rule-InOrder rule_id = elim (Option-cases (get_rule rule_id w.db)) [
    | inl e ↦ rw e order
    | inr (r, e) ↦
        rw e
          (All-remove_row (λ (x : AvailabilityRule). x.id) IsRule r.id w.db.rules order.0, order.1)
  ]

  create_availability_exception-InOrder :
      (resource_id : ℕ) (p : AvailabilityExceptionCreate)
      → InOrder (create_availability_exception resource_id p w).1.db
  unfolding create_availability_exception
  create_availability_exception-InOrder resource_id p =
      elim (Option-cases (get_resource resource_id w.db)) [
        | inl e ↦ rw e order
        | inr (r, e) ↦ elim (Bool-cases (r.tenant_id == p.tenant_id)) [
          | inr f ↦ rw (e, f) order
          | inl f ↦ elim (Bool-cases (leb p.ends_at p.starts_at)) [
            | inl g ↦ rw (e, f, g) order
            | inr g ↦
                rw (e, f, g)
                  (order.0, All-append IsException w.db.exceptions _ order.1 (ground arith, tt))
          ]
        ]
      ]

  update_availability_exception-InOrder :
      (exception_id : ℕ) (p : AvailabilityExceptionUpdate)
      → InOrder (update_availability_exception exception_id p w).1.db
  unfolding update_availability_exception
  update_availability_exception-InOrder exception_id p =
      elim (Option-cases (get_exception exception_id w.db)) [
        | inl e ↦ rw e order
        | inr (r, e) ↦
            elim (Bool-cases (leb (or_old p.ends_at r.ends_at) (or_old p.starts_at r.starts_at))) [
              | inl g ↦ rw (e, g) order
              | inr g ↦
                  rw (e, g)
                    (
                      order.0,
                      All-put_row (λ (x : AvailabilityException). x.id) IsException
                          (updated_exception r p) w.db.exceptions (ground arith) order.1,
                    )
            ]
      ]

  delete_availability_exception-InOrder :
      (exception_id : ℕ) → InOrder (delete_availability_exception exception_id w).1.db
  unfolding delete_availability_exception
  delete_availability_exception-InOrder exception_id =
      elim (Option-cases (get_exception exception_id w.db)) [
        | inl e ↦ rw e order
        | inr (r, e) ↦ rw e (
          order.0,
          All-remove_row (λ (x : AvailabilityException). x.id) IsException r.id w.db.exceptions
              order.1,
        )
      ]

  Call-InOrder : {w' : World s} → Call w w' → InOrder w'.db
  Call-InOrder (create_rule resource_id p _ valid) =
      create_availability_rule-InOrder resource_id p valid
  Call-InOrder (update_rule rule_id p _ valid) = update_availability_rule-InOrder rule_id p valid
  Call-InOrder (delete_rule rule_id _) = delete_availability_rule-InOrder rule_id
  Call-InOrder (create_exception resource_id p _) =
      create_availability_exception-InOrder resource_id p
  Call-InOrder (update_exception exception_id p _) =
      update_availability_exception-InOrder exception_id p
  Call-InOrder (delete_exception exception_id _) =
      delete_availability_exception-InOrder exception_id

-- Whatever calls the availability routes get, of payloads that the schema lets through, and however
-- they end: every rule stays a window that ends after it starts, within a day of the week, with
-- slots of five minutes to twelve hours, and every exception ends after it starts.
pub Calls-InOrder : {s : Services} {w w' : World s} → Calls w w' → InOrder w.db → InOrder w'.db
Calls-InOrder (done _) order = order
Calls-InOrder (next u v w call rest) order = Calls-InOrder rest (Call-InOrder u order call)
