-- ===== src/Effects/Monad.antt =====
-- State and exceptions, over any state: what was written before a raise stays written.
use slot_booking.Base.{
  ℕ, Bool, List, [], ◌∷◌, Option, none, some, if◌then◌else◌, ◌≡◌, refl, ◌⊎◌, inl, inr, arith,
}

-- The `detail` texts of the `HTTPException`s.
pub data Detail : Type 0 where
  resource_not_found slot_not_found booking_not_found waitlist_entry_not_found : Detail
  resource_not_in_tenant slot_not_in_resource resource_not_of_provider slot_not_in_tenant : Detail
  promo_not_active_yet promo_expired promo_not_available : Detail
  resource_inactive slot_unavailable slot_blocked slot_already_held : Detail
  invalid_slot_duration booking_window_violation : Detail
  booking_not_cancellable tenant_mismatch quote_changed : Detail
  recurring_disabled recurring_conflict group_disabled : Detail
  rule_not_found exception_not_found window_order exception_order : Detail
  review_not_found review_not_yours dispute_not_found : Detail
  provider_disabled payment_rejected payment_provider_error : Detail
  tenant_not_found not_a_member insufficient_permissions slug_taken : Detail
  member_not_found last_owner : Detail
  invitation_not_found invitation_exists invitation_expired : Detail
  invitation_closed other_email already_a_member not_pending : Detail
  already_cancelled already_paid unsupported_provider : Detail

-- What ends a handler: an `HTTPException`, SQLAlchemy's complaint that `scalar_one_or_none` met more
-- than one row, a broken uniqueness constraint, a `ValueError`, what a client of another system
-- raised, or a response that is not of the route's model.
pub data Error : Type 0 where
  http : ℕ → Detail → Error
  multiple_results_found : Error
  integrity_error : Error
  value_error : Error
  client_error : Error
  response_invalid : Error

pub data Result {ℓ} (A : Type ℓ) : Type ℓ where
  ok : A → Result A
  err : Error → Result A

abbrev pub Action : Type 0 → Type 0 → Type 0
Action W A = W → Result A × W

module _ {W A : Type 0} where
  abbrev pub pure : A → Action W A
  pure a w = (ok a, w)

  abbrev pub raise : Error → Action W A
  raise e w = (err e, w)

  abbrev pub gets : (W → A) → Action W A
  gets f w = (ok (f w), w)

  abbrev pub or_raise : Option A → Error → Action W A
  or_raise none e w = (err e, w)
  or_raise (some a) e w = (ok a, w)

  -- `result.scalar_one_or_none()`
  abbrev pub scalar_one_or_none : List A → Action W (Option A)
  scalar_one_or_none [] w = (ok none, w)
  scalar_one_or_none (a ∷ []) w = (ok (some a), w)
  scalar_one_or_none (a ∷ b ∷ rest) w = (err multiple_results_found, w)

-- What follows a first part: nothing, where that raised.
abbrev pub continue : {W A B : Type 0} → Result A × W → (A → Action W B) → Result B × W
continue r f = elim r.0 [ ok a ↦ f a r.1 | err e ↦ (err e, r.1) ]

-- Where all ends well, the first part did, and the rest went on from there.
pub continue_ok :
    {W A B : Type 0} (r : Result A × W) (f : A → Action W B) (b : B) (w : W)
    → continue r f ≡ (ok b, w)
    → (a : A) × (r ≡ (ok a, r.1)) × (f a r.1 ≡ (ok b, w))
continue_ok (ok a, v) f b w h = (a, refl, h)
continue_ok (err e, v) f b w h = absurd (ground arith)

-- What fails has failed in the first part, or after it.
pub continue_err :
    {W A B : Type 0} (r : Result A × W) (f : A → Action W B) (e : Error) (w : W)
    → continue r f ≡ (err e, w)
    → (r ≡ (err e, w)) ⊎ ((a : A) × (r ≡ (ok a, r.1)) × (f a r.1 ≡ (err e, w)))
continue_err (ok a, v) f e w h = inr (a, refl, h)
continue_err (err d, v) f e w h = inl (ground arith)

infixl 5 ◌>>=◌ ◌>>◌
abbrev pub ◌>>=◌ : {W A B : Type 0} → Action W A → (A → Action W B) → Action W B
◌>>=◌ m f w = continue (m w) f

abbrev pub ◌>>◌ : {W A B : Type 0} → Action W A → Action W B → Action W B
m >> k = m >>= λ _. k

module _ {W : Type 0} where
  abbrev pub modify : (W → W) → Action W (Unit {0})
  modify f w = (ok tt, f w)

  abbrev pub raise_if : Bool → Error → Action W (Unit {0})
  raise_if b e w = (if b then err e else ok tt, w)

-- `try: … except …:` with a new error for each.
abbrev pub attempt : {W A : Type 0} → (Error → Error) → Action W A → Action W A
attempt f m w = elim (m w).0 [ ok a ↦ (ok a, (m w).1) | err e ↦ (err (f e), (m w).1) ]
