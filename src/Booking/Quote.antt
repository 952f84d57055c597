-- ===== src/Booking/Quote.antt =====
-- `build_booking_quote` of backend/src/apps/booking/services/booking_service.py.
pub mod Accounting
use slot_booking.Base.{
  ℕ, ◌+◌, ◌-◌, ◌*◌, max, min, String, Bool, true, false, not, ◌&&◌, List, Option, none, some,
  select, ltb, leb, ◌==◌, if◌then◌else◌,
}
use slot_booking.Base.Text.{str_eq}
use slot_booking.Models.{Database, Resource, PromoCode, get_resource}
use slot_booking.Effects.{
  Services, World, Action, Error, http, Detail, resource_not_found, resource_not_in_tenant,
  promo_not_active_yet, promo_expired, promo_not_available, ◌>>=◌, ◌>>◌, pure, or_raise, raise_if,
  scalar_one_or_none, utcnow, query,
}

pub record BookingQuoteResult : Type 0 where
  pub resource : Resource
  pub base_amount_minor : ℕ
  pub promo_discount_minor : ℕ
  pub group_surcharge_minor : ℕ
  pub final_amount_minor : ℕ

-- `select(PromoCode).where(tenant_id == …, code == …, is_active)`
abbrev pub matching_promos : ℕ → String → Database → List PromoCode
matching_promos tenant_id code db =
    select (λ (p : PromoCode). p.tenant_id == tenant_id && (str_eq p.code code && p.is_active))
      db.promo_codes

-- `promo.starts_at and promo.starts_at > now`
abbrev pub starts_after : Option ℕ → ℕ → Bool
starts_after none now = false
starts_after (some t) now = ltb now t

-- `promo.ends_at and promo.ends_at < now`
abbrev pub ends_before : Option ℕ → ℕ → Bool
ends_before none now = false
ends_before (some t) now = ltb t now

-- `promo.max_redemptions is not None and promo.redeemed_count >= promo.max_redemptions`
abbrev pub is_used_up : PromoCode → Bool
is_used_up p = elim p.max_redemptions [ none ↦ false | some n ↦ leb n p.redeemed_count ]

-- The checks of a promo code that was found, and its discount.
unfoldable pub promo_discount : {s : Services} → ℕ → ℕ → Option PromoCode → Action (World s) ℕ
promo_discount base now none = pure 0
promo_discount {s} base now (some p) = do
  raise_if (starts_after p.starts_at now) (http 409 promo_not_active_yet)
  raise_if (ends_before p.ends_at now) (http 409 promo_expired)
  raise_if (is_used_up p) (http 409 promo_not_available)
  pure (s.percentage_of base p.percentage_off + p.fixed_off_minor)

-- `if promo_code:` takes neither `None` nor the empty text.
unfoldable pub discount_of : {s : Services} → ℕ → ℕ → Option String → Action (World s) ℕ
unfolding promo_discount
discount_of tenant_id base none = pure 0
discount_of tenant_id base (some code) = if str_eq code "" then pure 0 else do
  now ← utcnow
  promo ← scalar_one_or_none (← query (matching_promos tenant_id code))
  promo_discount base now promo

abbrev pub quote_of : Resource → ℕ → ℕ → BookingQuoteResult
quote_of resource group_surcharge discount = record {
  resource = resource;
  base_amount_minor = resource.base_price_minor;
  promo_discount_minor = min discount (resource.base_price_minor + group_surcharge);
  group_surcharge_minor = group_surcharge;
  final_amount_minor = max (resource.base_price_minor + group_surcharge - discount) 0;
}

unfoldable pub build_booking_quote :
    {s : Services} → ℕ → ℕ → Option String → ℕ → Action (World s) BookingQuoteResult
unfolding discount_of
build_booking_quote tenant_id resource_id promo_code group_size = do
  resource ← or_raise (← query (get_resource resource_id)) (http 404 resource_not_found)
  raise_if (not (resource.tenant_id == tenant_id)) (http 400 resource_not_in_tenant)
  discount ← discount_of tenant_id resource.base_price_minor promo_code
  pure (quote_of resource (max (group_size - 1) 0 * 100) discount)
