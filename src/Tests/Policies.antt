-- ===== src/Tests/Policies.antt =====
-- The refund policy, quotes and validation at concrete inputs.
use slot_booking.Base.{◌+◌, ◌*◌, ◌≡◌, ◌≤◌, refl, some, arith, Option, String}
use slot_booking.Base.Text.{str_ne}
use slot_booking.Effects.{hours}
use slot_booking.Booking.Policy.{calculate_refund_amount}
use slot_booking.Booking.Policy.Refund.{
  calculate_refund_amount_tiers, calculate_refund_amount_antitone,
}
use slot_booking.Booking.Quote.{build_booking_quote, quote_of}
use slot_booking.Booking.Quote.Accounting.{build_booking_quote_accounts, build_booking_quote_promo}
use slot_booking.Tests.Demo.{world, room, promo, start}

half_back : calculate_refund_amount 2001 (start + hours 2) start ≡ 1001
unfolding calculate_refund_amount
half_back = refl

tiers_example : 2001 ≤ 2 * calculate_refund_amount 2001 (start + hours 2) start
tiers_example =
    ((calculate_refund_amount_tiers 2001 (start + hours 2) start).1 (omega arith) (omega arith)).0

antitone_example :
    calculate_refund_amount 2001 (start + hours 2) (start + hours 1)
    ≤ calculate_refund_amount 2001 (start + hours 2) start
antitone_example =
    calculate_refund_amount_antitone 2001 (start + hours 2) start (start + hours 1) (omega arith)

abbrev spring : Option String
spring = some "SPRING"

-- 2001 for the room, 200 for two more people, less 10 % and 50.
accounts_example : (quote_of room 200 250).final_amount_minor + 250 ≡ 2201
unfolding build_booking_quote
accounts_example =
    (build_booking_quote_accounts 1 7 spring 3 world (record world { reads = 1 })
      (quote_of room 200 250) refl).0

promo_example : (quote_of room 200 250).promo_discount_minor ≡ 250
unfolding build_booking_quote
promo_example =
    (build_booking_quote_promo 1 7 "SPRING" 3 world (record world { reads = 1 })
      (quote_of room 200 250) promo (str_ne "SPRING" "" refl) refl refl).3
