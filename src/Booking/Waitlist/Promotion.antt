-- ===== src/Booking/Waitlist/Promotion.antt =====
-- Who is promoted when a slot comes free.
use slot_booking.Base.{
  ℕ, suc, ◌≤◌, ◌<◌, ◌≡◌, refl, ap, map, false, List, [], ◌∷◌, ◌++◌, some, select, length, arith,
}
use slot_booking.Models.{
  Database, SlotStatus, Notification, Slot, Resource, Booking, BookingStatus, WaitlistEntry,
  order_by, insert_sorted, get_resource, get_slot,
}
use slot_booking.Effects.{Services, World, IsMonotone, Result, ok, err, multiple_results_found}
use slot_booking.Booking.Create.{
  has_key, held_slot, create_booking_rows, create_or_get_idempotent_booking,
}
use slot_booking.Booking.Create.Rows.{create_booking_rows_lem, create_booking_rows_notifications}
use slot_booking.Booking.Waitlist.{
  wants, matching_entries, promotion_booking, promotion_notice, promote_entry, promote_slot,
}

length-insert_sorted {ℓ} :
    {A : Type ℓ} (key : A → ℕ) (r : A) (rows : List A)
    → length (insert_sorted key r rows) ≡ suc (length rows)
length-insert_sorted key r [] = refl
length-insert_sorted key r (x ∷ rows) = ground (arith, length-insert_sorted key r rows)

length-order_by {ℓ} :
    {A : Type ℓ} (key : A → ℕ) (rows : List A) → length (order_by key rows) ≡ length rows
length-order_by key [] = refl
length-order_by key (x ∷ rows) =
    omega (arith, length-insert_sorted key x (order_by key rows), length-order_by key rows)

-- Whenever two active entries of the waitlist want a slot, the promotion of that slot raises
-- `MultipleResultsFound` and promotes neither.
pub promote_slot_ambiguous :
    {s : Services} (slot : Slot) (w : World s)
    → 2 ≤ length (select (wants slot) w.db.waitlist)
    → promote_slot slot w ≡ (err multiple_results_found, w)
unfolding promote_slot
promote_slot_ambiguous slot w many = by_entries (matching_entries slot w.db) refl
  where
    by_entries :
        (entries : List WaitlistEntry)
        → matching_entries slot w.db ≡ entries
        → promote_slot slot w ≡ (err multiple_results_found, w)
    by_entries [] e = absurd (
        omega (
          arith,
          ap length e,
          length-order_by (λ (x : WaitlistEntry). x.created_at) (select (wants slot) w.db.waitlist),
        ))
    by_entries (x ∷ []) e = absurd (
        omega (
          arith,
          ap length e,
          length-order_by (λ (x : WaitlistEntry). x.created_at) (select (wants slot) w.db.waitlist),
        ))
    by_entries (x ∷ y ∷ rest) e = ground arith

-- A slot that is held until a time after another.
abbrev pub IsHeldAfter : ℕ → ℕ → Database → Type 0
IsHeldAfter id now db =
    (slot : Slot) × (t : ℕ) × (get_slot id db ≡ some slot)
    × (slot.status ≡ SlotStatus.held)
    × (slot.hold_expires_at ≡ some t)
    × (now < t)

-- Where exactly one active entry wants a slot that exists and was not promoted to it before, and the
-- clock does not run backwards, a promotion that succeeds makes its user a pending booking at the
-- resource's price, links it to the slot, holds the slot for a time to come, and stores one unread
-- notification for the user that names both.
pub promote_slot_only :
    {s : Services} (slot old : Slot) (entry : WaitlistEntry) (resource : Resource) (ids : List ℕ)
    (w w' : World s)
    → matching_entries slot w.db ≡ entry ∷ []
    → get_resource slot.resource_id w.db ≡ some resource
    → get_slot slot.id w.db ≡ some old
    → select
        (has_key (promotion_booking entry resource slot 0 0).idempotency_key entry.user_id)
        w.db.bookings
      ≡ []
    → IsMonotone w
    → promote_slot slot w ≡ (ok ids, w')
    → (b : Booking) × (ids ≡ b.id ∷ [])
      × (w'.db.bookings ≡ w.db.bookings ++ b ∷ [])
      × (b.user_id ≡ entry.user_id)
      × (b.status ≡ BookingStatus.pending)
      × (b.amount_minor ≡ resource.base_price_minor)
      × (w'.db.booking_slots
          ≡ w.db.booking_slots ++ record { booking_id = b.id; slot_id = slot.id } ∷ [])
      × IsHeldAfter slot.id (w.clock w.reads) w'.db
      × ((n : Notification) × (w'.db.notifications ≡ w.db.notifications ++ n ∷ [])
          × (n.user_id ≡ entry.user_id)
          × (n.booking_id ≡ b.id)
          × (n.slot_id ≡ some slot.id)
          × (n.is_read ≡ false))
unfolding promote_slot promote_entry create_or_get_idempotent_booking
promote_slot_only {s} slot old entry resource ids w w' one of_resource there fresh mono h =
    made_by (create_booking_rows booking slot 30 started) refl
  where
    booking : Booking
    booking = promotion_booking entry resource slot (w.clock w.reads) (w.clock (suc w.reads))

    started : World s
    started = record w { reads = suc (suc w.reads) }

    made_by :
        (r : Result Booking × World s)
        → create_booking_rows booking slot 30 started ≡ r
        → (b : Booking) × (ids ≡ b.id ∷ [])
          × (w'.db.bookings ≡ w.db.bookings ++ b ∷ [])
          × (b.user_id ≡ entry.user_id)
          × (b.status ≡ BookingStatus.pending)
          × (b.amount_minor ≡ resource.base_price_minor)
          × (w'.db.booking_slots
              ≡ w.db.booking_slots ++ record { booking_id = b.id; slot_id = slot.id } ∷ [])
          × IsHeldAfter slot.id (w.clock w.reads) w'.db
          × ((n : Notification) × (w'.db.notifications ≡ w.db.notifications ++ n ∷ [])
              × (n.user_id ≡ entry.user_id)
              × (n.booking_id ≡ b.id)
              × (n.slot_id ≡ some slot.id)
              × (n.is_read ≡ false))
    made_by (ok b, u) e =
        let (row, added, links, (t, held, future), invoice) =
          create_booking_rows_lem booking slot old 30 started u b e there mono (omega arith) in
        let notices : u.db.notifications ≡ w.db.notifications =
          create_booking_rows_notifications booking slot 30 started u b e in
        (
          b,
          ground arith,
          ground arith,
          ground arith,
          ground arith,
          ground arith,
          ground arith,
          (
            held_slot slot t,
            t,
            ground arith,
            refl,
            refl,
            omega (arith, mono w.reads (suc (suc w.reads)) (omega arith)),
          ),
          (
            promotion_notice (s.new_id (map (λ (n : Notification). n.id) w.db.notifications)) entry
                slot b,
            ground (arith, notices),
            refl,
            refl,
            refl,
            refl,
          ),
        )
    made_by (err x, u) e = absurd (ground arith)
