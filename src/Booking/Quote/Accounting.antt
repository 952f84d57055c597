-- ===== src/Booking/Quote/Accounting.antt =====
-- What a quote promises.
use slot_booking.Base.{
  ℕ, ◌+◌, ◌-◌, ◌*◌, ◌≤◌, ◌<◌, ◌≡◌, ◌≢◌, String, min, [], ◌∷◌, Option, none, some, arith, refl,
  find_by-holds, ◌==◌,
}
use text.Mathlib.TextEquality.{eq_iff}
use slot_booking.Models.{PromoCode, Resource}
use slot_booking.Effects.{Services, World, ok}
use slot_booking.Booking.Quote.{
  BookingQuoteResult, matching_promos, build_booking_quote, discount_of,
}

module _ {s : Services} where
  -- Pricing a promo code reads the clock and the database, and writes nothing.
  discount_of_keeps :
      (tenant_id base : ℕ) (code : Option String) (w : World s)
      → ((discount_of tenant_id base code w).1.db ≡ w.db)
        × ((discount_of tenant_id base code w).1.cache ≡ w.cache)
  unfolding discount_of
  discount_of_keeps tenant_id base none w = (refl, refl)
  discount_of_keeps tenant_id base (some code) w = ground arith

-- A quote that is given adds up: what is charged and what is taken off make the base price and the
-- surcharge, the resource is of the tenant, each further member of a group costs 100 minor units,
-- and asking for a quote changes neither the database nor the cache.
pub build_booking_quote_accounts :
    {s : Services} (tenant_id resource_id : ℕ) (code : Option String) (group_size : ℕ)
    (w w' : World s) (q : BookingQuoteResult)
    → build_booking_quote tenant_id resource_id code group_size w ≡ (ok q, w')
    → (q.final_amount_minor + q.promo_discount_minor
        ≡ q.base_amount_minor + q.group_surcharge_minor)
      × (q.resource.id ≡ resource_id)
      × (q.resource.tenant_id ≡ tenant_id)
      × (q.base_amount_minor ≡ q.resource.base_price_minor)
      × (q.group_surcharge_minor ≡ (group_size - 1) * 100)
      × (w'.db ≡ w.db)
      × (w'.cache ≡ w.cache)
unfolding build_booking_quote
build_booking_quote_accounts tenant_id resource_id code group_size w w' q h = ground (
  arith,
  find_by-holds (λ (r : Resource). r.id == resource_id) w.db.resources {x = q.resource},
  discount_of_keeps tenant_id q.resource.base_price_minor code w,
)

-- A promo code that has a row in force is honoured only within its period and below its limit of
-- redemptions, and then takes off its percentage of the base price and its fixed amount, up to the
-- whole price.
pub build_booking_quote_promo :
    {s : Services} (tenant_id resource_id : ℕ) (code : String) (group_size : ℕ) (w w' : World s)
    (q : BookingQuoteResult) (p : PromoCode)
    → code ≢ ""
    → matching_promos tenant_id code w.db ≡ p ∷ []
    → build_booking_quote tenant_id resource_id (some code) group_size w ≡ (ok q, w')
    → ((t : ℕ) → p.starts_at ≡ some t → t ≤ w.clock w.reads)
      × ((t : ℕ) → p.ends_at ≡ some t → w.clock w.reads ≤ t)
      × ((n : ℕ) → p.max_redemptions ≡ some n → p.redeemed_count < n)
      × (q.promo_discount_minor
          ≡ min
              (s.percentage_of q.base_amount_minor p.percentage_off + p.fixed_off_minor)
              (q.base_amount_minor + q.group_surcharge_minor))
unfolding build_booking_quote
build_booking_quote_promo {s} tenant_id resource_id code group_size w w' q p named found h = (
  λ t e. ground (arith, eq_iff code ""),
  λ t e. ground (arith, eq_iff code ""),
  λ n e. ground (arith, eq_iff code ""),
  ground (arith, eq_iff code ""),
)
