-- ===== src/Tests/Requests.antt =====
-- The routes that book, availability and slot generation at concrete inputs.
use slot_booking.Base.{
  String, All, any, ◌&&◌, ◌==◌, ◌+◌, ◌≡◌, ◌≢◌, refl, true, some, none, ◌∷◌, [], List, length, arith,
}
use slot_booking.Models.{Resource, get_resource, Booking, BookingStatus, PaymentStatus, Slot}
use slot_booking.Effects.{World, ok, hours, days}
use slot_booking.Base.Strip.{strip}
use slot_booking.Api.Bookings.{
  BookingCreate, create_booking, create_new_booking, quote_and_book, book_at_price,
}
use slot_booking.Booking.Hold.{get_slot_hold_owner, hold_owner, release_slot_hold}
use slot_booking.Booking.Validate.{
  validate_slot_booking_request, check_ownership, check_schedule, check_holder,
}
use slot_booking.Booking.Quote.{build_booking_quote}
use slot_booking.Base.Text.{str}
use slot_booking.Booking.Create.{
  get_booking_by_idempotency_key, create_or_get_idempotent_booking, create_booking_rows,
}
use slot_booking.Notifications.{create_notification, dispatch}
use slot_booking.Api.Bookings.Priced.{create_booking_priced}
use slot_booking.Api.Bookings.Replay.{create_booking_replayed}
use slot_booking.Api.Recurring.{
  RecurringBookingRequest, create_recurring_bookings, series_from, commit_series, next_slots,
  next_slot, book_slots, book_slot,
}
use slot_booking.Api.Recurring.Series.{create_recurring_bookings_whole}
use slot_booking.Api.Availability.{AvailabilityRuleCreate, create_availability_rule}
use slot_booking.Api.Availability.Order.{InOrder, Call, Calls, Calls-InOrder}
use slot_booking.Booking.Generate.{
  generate_slots_for_resource, cut_days, cut_rules, cut_rule, cut_window, offer_slot,
}
use slot_booking.Booking.Generate.Cuts.{generate_slots_for_resource_ends}
use slot_booking.Booking.Generate.Added.{
  HasNoClockChange, IsOpenSlot, generate_slots_for_resource-Added,
}
use slot_booking.Tests.Demo.{services, world, world_of, database, open_slot, paid_booking, start}

abbrev payload : BookingCreate
payload = record {
  tenant_id = 1;
  provider_id = 3;
  resource_id = 7;
  slot_id = 5;
  amount_minor = 2001;
  currency = "USD";
  promo_code = none;
  group_size = 1;
  notes = "window seat";
}

abbrev booked : World services
booked = (create_booking payload "key-of-41" "req-1" (some 1) 41 world).1

abbrev made : Booking
made = record paid_booking {
  id = 10;
  user_id = 41;
  status = BookingStatus.pending;
  payment_status = PaymentStatus.pending;
  idempotency_key = "key-of-41";
  notes = "window seat\nrequest_id=req-1";
  created_at = start + 1_000_000;
  updated_at = start + 2_000_000;
}

booked_lem : create_booking payload "key-of-41" "req-1" (some 1) 41 world ≡ (ok made, booked)
unfolding create_booking get_booking_by_idempotency_key create_new_booking
    validate_slot_booking_request check_ownership check_schedule get_slot_hold_owner check_holder
    hold_owner quote_and_book build_booking_quote book_at_price create_or_get_idempotent_booking
    create_booking_rows release_slot_hold create_notification dispatch strip
booked_lem = refl

priced_example : made.amount_minor ≡ 2001
priced_example =
    (create_booking_priced payload "key-of-41" "req-1" (some 1) 41 world booked made booked_lem
      refl).8

-- The answer was lost, and the request comes again with another body.
replayed_example :
    create_booking
      (record payload { amount_minor = 5 })
      "key-of-41"
      "req-2"
      none
      41
      (world_of booked.saved)
    ≡ (ok made, world_of booked.saved)
replayed_example =
    create_booking_replayed payload (record payload { amount_minor = 5 }) "key-of-41" "req-1"
      "req-2" (some 1) none 41 world booked (world_of booked.saved) made booked_lem refl refl refl

abbrev weekly : RecurringBookingRequest
weekly = record {
  tenant_id = 1;
  provider_id = 3;
  resource_id = 7;
  slot_id = 5;
  amount_minor = 0;
  currency = "USD";
  repeat_count = 2;
  interval_days = 7;
}

-- The slot, and that of the next week.
abbrev two_weeks : World services
two_weeks = world_of (record database {
  slots =
      open_slot
      ∷ record open_slot {
        id = 8;
        starts_at = start + days 7 + hours 30;
        ends_at = start + days 7 + hours 31;
      }
      ∷ [];
})

abbrev series : World services
series = (create_recurring_bookings true weekly 41 two_weeks).1

whole_example :
    All
      (λ id. any (λ (b : Booking). b.id == id && b.user_id == 41) series.saved.bookings ≡ true)
      (10 ∷ 11 ∷ [])
unfolding create_recurring_bookings series_from commit_series next_slots next_slot book_slots
    book_slot validate_slot_booking_request check_ownership check_schedule get_slot_hold_owner
    check_holder hold_owner build_booking_quote create_or_get_idempotent_booking
    get_booking_by_idempotency_key create_booking_rows release_slot_hold str
whole_example =
    ((create_recurring_bookings_whole true weekly 41 two_weeks series).0 (10 ∷ 11 ∷ []) refl).1

-- Mondays from 9 to 10.
abbrev mondays : AvailabilityRuleCreate
mondays = record {
  tenant_id = 1;
  day_of_week = 0;
  start_minute = 540;
  end_minute = 600;
  slot_duration_min = 30;
  valid_from = none;
  valid_to = none;
  is_active = true;
}

abbrev ruled : World services
ruled = (create_availability_rule 7 mondays world).1

order_example : InOrder ruled.db
order_example =
    Calls-InOrder
      (Calls.next world ruled ruled
        (Call.create_rule 7 mondays world (omega arith, omega arith, omega arith, omega arith))
        (Calls.done ruled))
      (tt, tt)

ends_example : (generate_slots_for_resource 7 start (start + days 9) ruled).0 ≢ ok none
unfolding create_availability_rule
ends_example = generate_slots_for_resource_ends 7 start (start + days 9) ruled order_example.0

winter : (zone : String) → HasNoClockChange services zone start (start + days 9)
winter zone = record {
  ordered = λ a b low less high. omega arith;
  from_back = refl;
  until_back = refl;
}

added_example :
    (r : Resource) × (get_resource 7 ruled.db ≡ some r)
    × (more : List Slot) × (length more ≡ 4)
    × All (IsOpenSlot r 7 ruled.db.exceptions start (start + days 9)) more
unfolding create_availability_rule generate_slots_for_resource cut_days cut_rules cut_rule
    cut_window offer_slot
added_example =
    let p =
      generate_slots_for_resource-Added 7 start (start + days 9) ruled
        (generate_slots_for_resource 7 start (start + days 9) ruled).1 4 order_example.0
        (λ r found. winter r.timezone) refl in
    (p.0, p.1, p.2, p.4, p.5)
