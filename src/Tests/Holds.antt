-- ===== src/Tests/Holds.antt =====
-- Holds and validation at concrete inputs.
use slot_booking.Base.{◌+◌, ◌≡◌, refl, none, false, arith, inl}
use slot_booking.Base.Text.{str}
use slot_booking.Effects.{World, ok, err, http, slot_already_held}
use slot_booking.Booking.Hold.{
  hold_key, get_slot_hold_owner, hold_owner, hold_slot_with_ttl, release_slot_hold,
}
use slot_booking.Booking.Hold.Exclusion.{hold_slot_with_ttl_excludes, release_slot_hold_holder}
use slot_booking.Booking.Validate.{
  SlotBookingContext, validate_slot_booking_request, check_ownership, check_schedule, check_holder,
}
use slot_booking.Booking.Validate.Checks.{Scheduled}
use slot_booking.Booking.Validate.Rules.{
  after_check, validate_slot_booking_request-IsBookable, validate_slot_booking_request_complete,
}
use slot_booking.Tests.Demo.{services, cache_laws, world, room, open_slot, start}

-- User 40 holds slot 5 for ten minutes.
abbrev held_world : World services
held_world = (hold_slot_with_ttl 5 40 600 world).1

excludes_example : (hold_slot_with_ttl 5 41 600 held_world).0 ≡ err (http 409 slot_already_held)
unfolding hold_slot_with_ttl hold_key str
excludes_example =
    (hold_slot_with_ttl_excludes cache_laws 5 40 41 600 600 world held_world held_world (λ k. none)
      (record { slot_id = 5; hold_expires_at = start + 600_000_000 }) refl refl refl refl
      (omega arith) (omega arith)).0

release_example : (release_slot_hold 5 41 held_world).0 ≡ ok false
unfolding hold_slot_with_ttl hold_key str
release_example =
    ((release_slot_hold_holder cache_laws 5 41 40 held_world _ refl refl).1 (omega arith)).0

abbrev context : SlotBookingContext
context = record { slot = open_slot; resource = room }

bookable_example : Scheduled open_slot start
unfolding validate_slot_booking_request get_slot_hold_owner hold_owner check_ownership
    check_schedule check_holder
bookable_example =
    (validate_slot_booking_request-IsBookable 5 7 3 1 40 world (after_check world open_slot) context
      refl).5.scheduled

complete_example :
    validate_slot_booking_request 5 7 3 1 40 world ≡ (ok context, after_check world open_slot)
unfolding hold_owner
complete_example =
    validate_slot_booking_request_complete 5 7 3 1 40 world open_slot room refl refl (record {
      owned = (refl, refl, refl, refl, refl, refl);
      scheduled = (λ e. cc, λ e. cc, omega arith, omega arith, refl, omega arith, omega arith);
      available = (inl refl, λ t e held late. cc);
    })
