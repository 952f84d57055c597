-- ===== src/Booking/Policy/Refund.antt =====
-- The refund policy of `calculate_refund_amount`.
use slot_booking.Base.{ℕ, ◌+◌, ◌*◌, ◌≡◌, ◌≤◌, ◌<◌, arith}
use slot_booking.Effects.{hours}
use slot_booking.Booking.Policy.{calculate_refund_amount}

-- The policy as the docstring of `calculate_refund_amount` states it: with 24 hours' notice or more
-- all is refunded, with an hour or more half of it, the odd minor unit rounded up, and with less
-- than an hour nothing; and never more than was paid.
pub calculate_refund_amount_tiers :
    (amount starts cancelled : ℕ)
    → let refund = calculate_refund_amount amount starts cancelled in
      (cancelled + hours 24 ≤ starts → refund ≡ amount)
      × (starts < cancelled + hours 24
          → cancelled + hours 1 ≤ starts
          → (amount ≤ 2 * refund) × (2 * refund ≤ amount + 1))
      × (starts < cancelled + hours 1 → refund ≡ 0)
      × (refund ≤ amount)
unfolding calculate_refund_amount
calculate_refund_amount_tiers amount starts cancelled =
    (ground arith, ground arith, ground arith, ground arith)

-- Cancelling later never refunds more.
pub calculate_refund_amount_antitone :
    (amount starts earlier later : ℕ)
    → earlier ≤ later
    → calculate_refund_amount amount starts later ≤ calculate_refund_amount amount starts earlier
unfolding calculate_refund_amount
calculate_refund_amount_antitone amount starts earlier later h = ground arith
