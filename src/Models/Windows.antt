-- ===== src/Models/Windows.antt =====
-- When an availability rule or exception is well formed.
use slot_booking.Base.{◌≤◌, ◌<◌}
use slot_booking.Models.Rows.{AvailabilityRule, AvailabilityException}

-- A window within one day of the week, cut into slots of five minutes to twelve hours.
abbrev pub IsRule : AvailabilityRule → Type 0
IsRule r =
    (r.day_of_week ≤ 6)
    × (r.start_minute < r.end_minute)
    × (r.end_minute ≤ 1440)
    × (5 ≤ r.slot_duration_min)
    × (r.slot_duration_min ≤ 720)

abbrev pub IsException : AvailabilityException → Type 0
IsException e = e.starts_at < e.ends_at
