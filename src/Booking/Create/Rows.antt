-- ===== src/Booking/Create/Rows.antt =====
-- The rows that `create_or_get_idempotent_booking` writes for a new booking.
use slot_booking.Base.{
  Bool-cases, inl, inr, leb, ℕ, suc, ◌+◌, ◌<◌, ◌≡◌, refl, List, [], ◌∷◌, ◌++◌, Option, none, some,
  map, arith,
}
use slot_booking.Models.{
  Booking, Slot, Invoice, BookingStatus, PaymentStatus, InvoiceStatus, get_slot,
}
use slot_booking.Models.Laws.{get_row-put_row_self}
use slot_booking.Effects.{Services, World, IsMonotone, ok, minutes}
use slot_booking.Booking.Hold.{release_slot_hold}
use slot_booking.Booking.Create.{
  hold_expiry, insert_booking, create_booking_rows, held_slot, draft_invoice,
}

-- The row of a new booking: pending, unpaid, under a fresh key.
abbrev pub new_row : Services → Booking → List Booking → Booking
new_row s booking rows = record booking {
  id = s.new_id (map (λ (b : Booking). b.id) rows);
  status = BookingStatus.pending;
  payment_status = PaymentStatus.pending;
}

-- The expiry that a new booking gets: that of the slot's hold while it runs, or a new one.
pub hold_expiry_lem :
    {s : Services} (old : Option ℕ) (m : ℕ) (w : World s)
    → (t : ℕ) × (n : ℕ) × (hold_expiry old m w ≡ (ok t, record w { reads = n }))
      × (IsMonotone w → 0 < m → w.clock w.reads < t)
unfolding hold_expiry
hold_expiry_lem none m w = (_, _, refl, λ mono pos. omega arith)
hold_expiry_lem (some u) m w = elim (Bool-cases (leb u (w.clock w.reads))) [
  | inl past ↦ (
    w.clock (suc w.reads) + minutes m,
    suc (suc w.reads),
    ground arith,
    λ mono pos. omega (arith, mono w.reads (suc w.reads) (omega arith)),
  )
  | inr running ↦ (u, suc w.reads, ground arith, λ mono pos. ground arith)
]

pub create_booking_rows_bookings :
    {s : Services} (booking : Booking) (slot : Slot) (m : ℕ) (w w' : World s) (made : Booking)
    → create_booking_rows booking slot m w ≡ (ok made, w')
    → (made ≡ new_row s booking w.db.bookings) × (w'.db.bookings ≡ w.db.bookings ++ made ∷ [])
unfolding create_booking_rows insert_booking release_slot_hold
create_booking_rows_bookings booking slot m w w' made h =
    let (t, n, e, future) = hold_expiry_lem slot.hold_expires_at m w in
    (ground (arith, e), ground (arith, e))

pub create_booking_rows_notifications :
    {s : Services} (booking : Booking) (slot : Slot) (m : ℕ) (w w' : World s) (made : Booking)
    → create_booking_rows booking slot m w ≡ (ok made, w')
    → w'.db.notifications ≡ w.db.notifications
unfolding create_booking_rows insert_booking release_slot_hold
create_booking_rows_notifications booking slot m w w' made h =
    let (t, n, e, future) = hold_expiry_lem slot.hold_expires_at m w in ground (arith, e)

-- Creating a booking adds it as pending and unpaid, links it to the slot, drafts an invoice over its
-- amount, and holds the slot until a time that is still to come.
pub create_booking_rows_lem :
    {s : Services} (booking : Booking) (slot old : Slot) (m : ℕ) (w w' : World s) (made : Booking)
    → create_booking_rows booking slot m w ≡ (ok made, w')
    → get_slot slot.id w.db ≡ some old
    → IsMonotone w
    → 0 < m
    → (made ≡ new_row s booking w.db.bookings)
      × (w'.db.bookings ≡ w.db.bookings ++ made ∷ [])
      × (w'.db.booking_slots
          ≡ w.db.booking_slots ++ record { booking_id = made.id; slot_id = slot.id } ∷ [])
      × ((t : ℕ) × (get_slot slot.id w'.db ≡ some (held_slot slot t)) × (w.clock w.reads < t))
      × ((i : Invoice) × (w'.db.invoices ≡ w.db.invoices ++ i ∷ [])
          × (i.booking_id ≡ made.id)
          × (i.total_minor ≡ booking.amount_minor)
          × (i.status ≡ InvoiceStatus.draft))
unfolding create_booking_rows insert_booking release_slot_hold
create_booking_rows_lem {s} booking slot old m w w' made h found mono pos =
    let (t, n, e, future) = hold_expiry_lem slot.hold_expires_at m w in
    let kept = get_row-put_row_self (λ (r : Slot). r.id) (held_slot slot t) old w.db.slots found in
    (
      ground (arith, e),
      ground (arith, e),
      ground (arith, e),
      (t, ground (arith, e, kept), future mono pos),
      (
        draft_invoice made (w.clock n),
        ground (arith, e),
        ground (arith, e),
        ground (arith, e),
        ground (arith, e),
      ),
    )
