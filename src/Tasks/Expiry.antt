-- ===== src/Tasks/Expiry.antt =====
-- What `booking_release_expired_holds_task` leaves behind.
use slot_booking.Base.{ℕ, ◌≤◌, ◌≡◌, refl, ap, ◌∙◌, List, [], ◌∷◌, select, length, arith}
use slot_booking.Models.{Database, Slot, Booking, is_pending, put_slot}
use slot_booking.Models.Sweep.{sweep, select-sweep}
use slot_booking.Effects.{Services, World, ok}
use slot_booking.Booking.Validate.{reopened}
use slot_booking.Tasks.{
  is_lapsed, expire_booking, expire_bookings, release_expired, booking_release_expired_holds_task,
}

expire_bookings-slots :
    (slot : Slot) (now : ℕ) (pending : List Booking) (db : Database)
    → (expire_bookings slot now pending db).slots ≡ db.slots
unfolding expire_bookings
expire_bookings-slots slot now [] db = refl
expire_bookings-slots slot now (b ∷ pending) db =
    expire_bookings-slots slot now pending (expire_booking slot now b db) ∙ ground arith

-- On the slots the loop is a sweep.
release_expired-slots :
    (now : ℕ) (found : List Slot) (db : Database)
    → (release_expired now found db).slots
      ≡ sweep (λ (r : Slot). r.id) (is_lapsed now) reopened found db.slots
unfolding release_expired
release_expired-slots now [] db = refl
release_expired-slots now (slot ∷ found) db =
    release_expired-slots now found (
      expire_bookings slot now
        (select (λ (b : Booking). is_pending b.status) (put_slot (reopened slot) db).bookings)
        (put_slot (reopened slot) db))
    ∙ ap (sweep (λ (r : Slot). r.id) (is_lapsed now) reopened found)
        (expire_bookings-slots slot now _ (put_slot (reopened slot) db))

-- What has not lapsed at a time has not lapsed before it.
select-earlier :
    (earlier later : ℕ) (slots : List Slot)
    → earlier ≤ later
    → select (is_lapsed later) slots ≡ []
    → select (is_lapsed earlier) slots ≡ []
select-earlier earlier later [] le e = refl
select-earlier earlier later (slot ∷ slots) le e =
    ground (arith, select-earlier earlier later slots le)

pub booking_release_expired_holds_task_lem :
    {s : Services} (w : World s)
    → let now = w.clock w.reads in
      let (r, w') = booking_release_expired_holds_task w in
      (r ≡ ok (length (select (is_lapsed now) w.db.slots)))
      × (select (is_lapsed now) w'.db.slots ≡ [])
      × (w'.saved ≡ w'.db)
unfolding booking_release_expired_holds_task
booking_release_expired_holds_task_lem w =
    let now = w.clock w.reads in
    (
      refl,
      ap (select (is_lapsed now))
            (release_expired-slots now (select (is_lapsed now) w.db.slots) w.db)
          ∙ select-sweep (λ (r : Slot). r.id) (is_lapsed now) reopened (λ x. refl) (λ x. refl)
              w.db.slots,
      refl,
    )

-- Run again before the clock has moved past the time of the first run, the task finds nothing to
-- release and leaves the database alone.
pub booking_release_expired_holds_task_again :
    {s : Services} (w v : World s)
    → v.db ≡ (booking_release_expired_holds_task w).1.db
    → v.clock v.reads ≤ w.clock w.reads
    → ((booking_release_expired_holds_task v).0 ≡ ok 0)
      × ((booking_release_expired_holds_task v).1.db ≡ v.db)
unfolding booking_release_expired_holds_task release_expired
booking_release_expired_holds_task_again w v same early =
    let none_left =
      ap (λ (db : Database). select (is_lapsed (w.clock w.reads)) db.slots) same
      ∙ (booking_release_expired_holds_task_lem w).1 in
    let none_yet = select-earlier (v.clock v.reads) (w.clock w.reads) v.db.slots early none_left in
    (ground (arith, none_yet), ground (arith, none_yet))
