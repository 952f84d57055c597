-- ===== src/Tests/Bookings.antt =====
-- Bookings, promotions and cancellations at concrete inputs.
use slot_booking.Base.{true, ℕ, ◌≡◌, refl, ap, some, ◌∷◌, [], arith}
use slot_booking.Base.Text.{str}
use slot_booking.Models.{Booking, Database, get_booking, is_cancellable}
use slot_booking.Effects.{World, ok, err, multiple_results_found, run_request}
use slot_booking.Booking.Hold.{release_slot_hold}
use slot_booking.Booking.Policy.{calculate_refund_amount}
use slot_booking.Booking.Create.{
  create_or_get_idempotent_booking, create_booking_rows, insert_booking, hold_expiry,
}
use slot_booking.Booking.Create.Rows.{new_row, create_booking_rows_lem}
use slot_booking.Booking.Create.Idempotence.{create_or_get_idempotent_booking_twice}
use slot_booking.Booking.Waitlist.{promote_slot, promote_entry, promote_waitlist_entries_for_slots}
use slot_booking.Booking.Waitlist.Promotion.{promote_slot_only}
use slot_booking.Booking.Cancel.{cancel_booking, cancelled_row}
use slot_booking.Booking.Cancel.Outcome.{
  IsCancelledFrom, IsGranted, IsRefunded, CountsAsRefunded, cancel_booking_refunds,
  cancel_booking_ambiguous,
}
use slot_booking.Tests.Demo.{
  services, world, world_of, database, room, open_slot, booked_slot, paid_booking, entry, start,
}

abbrev request : Booking
request = record paid_booking { id = 0; user_id = 41; idempotency_key = "key-of-41" }

abbrev made : Booking
made = new_row services request (paid_booking ∷ [])

rows_example : made.id ≡ 10
unfolding create_booking_rows insert_booking hold_expiry release_slot_hold
rows_example =
    ap (λ (b : Booking). b.id)
      (create_booking_rows_lem request open_slot open_slot 10 world
        (create_booking_rows request open_slot 10 world).1 made refl refl (λ n m le. omega arith)
        (omega arith)).0

abbrev after_create : World services
after_create = (create_or_get_idempotent_booking request open_slot 10 world).1

twice_example :
    create_or_get_idempotent_booking request booked_slot 5 after_create ≡ (ok made, after_create)
unfolding create_or_get_idempotent_booking create_booking_rows insert_booking hold_expiry
    release_slot_hold
twice_example =
    create_or_get_idempotent_booking_twice request request open_slot booked_slot 10 5 world
      after_create after_create made refl refl refl refl

-- A second entry that wants the slot of the paid booking.
abbrev contended : Database
contended = record database { waitlist = entry ∷ record entry { id = 3; user_id = 42 } ∷ [] }

abbrev after_promotion : World services
after_promotion = (promote_slot booked_slot world).1

only_example : (b : Booking) × (10 ∷ [] ≡ b.id ∷ []) × (b.user_id ≡ 41)
unfolding promote_slot promote_entry create_or_get_idempotent_booking create_booking_rows
    insert_booking hold_expiry release_slot_hold str
only_example =
    let p =
      promote_slot_only booked_slot booked_slot entry room (10 ∷ []) world after_promotion refl refl
        refl refl (λ n m le. omega arith) refl in
    (p.0, p.1, p.3)

-- 34 hours before the slot all of the price goes back.
refunds_example :
    let c = cancelled_row paid_booking 2001 start in
    let w' = (cancel_booking 9 40 world).1 in
    (is_cancellable paid_booking.status ≡ true)
    × (get_booking 9 w'.db ≡ some c)
    × IsCancelledFrom paid_booking c start
    × (refund : ℕ) × IsGranted paid_booking booked_slot.starts_at start refund
    × IsRefunded paid_booking c refund world.db.refunds w'.db.refunds
    × CountsAsRefunded paid_booking c refund
unfolding cancel_booking promote_waitlist_entries_for_slots promote_slot promote_entry
    create_or_get_idempotent_booking create_booking_rows insert_booking hold_expiry
    calculate_refund_amount str release_slot_hold
refunds_example =
    cancel_booking_refunds 9 40 world (cancel_booking 9 40 world).1 paid_booking
      (cancelled_row paid_booking 2001 start) booked_slot [] refl refl refl

fails_example :
    (run_request (cancel_booking 9 40) (world_of contended)).0 ≡ err multiple_results_found
fails_example =
    (cancel_booking_ambiguous 9 40 (world_of contended) paid_booking booked_slot [] refl refl refl
      (omega arith)).0
