-- ===== src/Booking/Policy.antt =====
-- `calculate_refund_amount` and `default_hold_expiry` of backend/src/apps/booking/models/booking.py,
-- and the constants of booking_service.py.
pub mod Refund
use slot_booking.Base.{ℕ, ◌+◌, ◌*◌, ◌/◌, leb, if◌then◌else◌}
use slot_booking.Effects.{Services, World, Action, ◌>>=◌, pure, utcnow, minutes, hours}

abbrev pub min_advance_hours : ℕ
min_advance_hours = 1

abbrev pub max_advance_days : ℕ
max_advance_days = 90

abbrev pub default_slot_duration_minutes : ℕ
default_slot_duration_minutes = 30

abbrev pub waitlist_promotion_hold_minutes : ℕ
waitlist_promotion_hold_minutes = 30

abbrev pub default_hold_expiry : {s : Services} → ℕ → Action (World s) ℕ
default_hold_expiry n = do now ← utcnow; pure (now + minutes n)

-- `int(d.quantize(Decimal("1"), rounding=ROUND_HALF_UP))`, of a decimal in tenths.
round_half_up : ℕ → ℕ
round_half_up tenths = (tenths + 5) / 10

-- `cancelled_at <= starts_at - timedelta(...)` is written with the span on the left.
unfoldable pub calculate_refund_amount : ℕ → ℕ → ℕ → ℕ
unfolding round_half_up
calculate_refund_amount amount_minor starts_at cancelled_at =
    if leb (cancelled_at + hours 24) starts_at
    then amount_minor
    else if leb (cancelled_at + hours 1) starts_at
    then round_half_up (amount_minor * 5)
    else 0
