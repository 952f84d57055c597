-- ===== src/Tests/Own.antt =====
-- The owned rows at a concrete input: user 77 tries to delete an entry of another user.
use slot_booking.Base.{◌+◌, ◌≡◌, refl, none, some, false, arith}
use slot_booking.Models.{get_entry}
use slot_booking.Effects.{hours}
use slot_booking.Api.Waitlist.{delete_waitlist_entry}
use slot_booking.Api.Waitlist.Own.{waitlist_entry_kept}
use slot_booking.Tests.Demo.{world, entry, start}

entry_example : get_entry 2 (delete_waitlist_entry 2 77 world).1.db ≡ some entry
entry_example =
    (waitlist_entry_kept 77 2 2
      (record {
        tenant_id = 1;
        resource_id = 7;
        desired_start_at = start;
        desired_end_at = start + hours 1;
      })
      (record { desired_start_at = none; desired_end_at = none; is_active = some false }) world
      entry refl (omega arith)).2
