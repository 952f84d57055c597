-- ===== src/Booking/Waitlist/Frame.antt =====
-- What promotions leave alone: the refunds, and every booking that is there.
use slot_booking.Base.{
  ℕ, suc, ◌≡◌, refl, ap, ◌∙◌, List, [], ◌∷◌, ◌++◌, Option, none, some, select, map, arith, inl, inr,
  Option-cases,
}
use slot_booking.Models.{
  Database, Booking, Slot, Resource, WaitlistEntry, Notification, get_booking, get_row,
  get_resource,
}
use slot_booking.Models.Laws.{get_row-append}
use slot_booking.Effects.{
  Services, World, Action, Result, ok, err, multiple_results_found, continue, query, ◌>>=◌, ◌>>◌,
  pure, write,
}
use slot_booking.Booking.Policy.{waitlist_promotion_hold_minutes}
use slot_booking.Booking.Hold.{release_slot_hold}
use slot_booking.Booking.Create.{
  has_key, insert_booking, create_booking_rows, create_or_get_idempotent_booking,
}
use slot_booking.Booking.Create.Rows.{hold_expiry_lem, create_booking_rows_bookings}
use slot_booking.Booking.Waitlist.{
  matching_entries, promotion_booking, record_promotion, promote_entry, promote_for, promote_next,
  promote_slot, promote_waitlist_entries_for_slots,
}

-- The refunds are as before, and every booking is where it was, as it was.
pub record Grows (before after : Database) : Type 0 where
  pub refunds : after.refunds ≡ before.refunds
  pub bookings :
      (k : ℕ) (b : Booking) → get_booking k before ≡ some b → get_booking k after ≡ some b

Grows-refl : (db : Database) → Grows db db
Grows-refl db = record { refunds = refl; bookings = λ k b e. e }

Grows-trans : {a b c : Database} → Grows a b → Grows b c → Grows a c
Grows-trans g h = record {
  refunds = h.refunds ∙ g.refunds;
  bookings = λ k b e. h.bookings k b (g.bookings k b e);
}

-- An action that ends well has grown the database; one that fails may have rolled it back.
abbrev pub Grown : {s : Services} {A : Type 0} → Database → Result A × World s → Type 0
Grown before (ok a, w) = Grows before w.db
Grown before (err e, w) = Unit {0}

Grown-after :
    {s : Services} {A : Type 0} {a b : Database} (r : Result A × World s)
    → Grows a b
    → Grown b r
    → Grown a r
Grown-after (ok x, u) g h = Grows-trans g h
Grown-after (err e, u) g h = tt

-- A sequence grows the database if both its parts do.
bind-Grown :
    {s : Services} {A B : Type 0} (m : Action (World s) A) (f : A → Action (World s) B)
    (w : World s)
    → Grown w.db (m w)
    → ((a : A) (u : World s) → Grown u.db (f a u))
    → Grown w.db ((m >>= f) w)
bind-Grown {s} {A} {B} m f w g h = split (m w) g
  where
    split : (r : Result A × World s) → Grown w.db r → Grown w.db (continue r f)
    split (ok a, u) k = Grown-after (f a u) k (h a u)
    split (err e, u) k = tt

module _ {s : Services} where
  create_booking_rows-Grown :
      (booking : Booking) (slot : Slot) (m : ℕ) (w : World s)
      → Grown w.db (create_booking_rows booking slot m w)
  unfolding create_booking_rows insert_booking release_slot_hold
  create_booking_rows-Grown booking slot m w = after (create_booking_rows booking slot m w) refl
    where
      after :
          (r : Result Booking × World s) → create_booking_rows booking slot m w ≡ r → Grown w.db r
      after (err e, u) h = tt
      after (ok made, u) h =
          let (t, n, x, future) = hold_expiry_lem slot.hold_expires_at m w in
          let added = (create_booking_rows_bookings booking slot m w u made h).1 in
          record {
            refunds = ground (arith, x);
            bookings = λ k b e.
                ap (get_row (λ (r : Booking). r.id) k) added
                ∙ get_row-append (λ (r : Booking). r.id) k w.db.bookings (made ∷ []) {x = b} e;
          }

  create_or_get-Grown :
      (booking : Booking) (slot : Slot) (m : ℕ) (w : World s)
      → Grown w.db (create_or_get_idempotent_booking booking slot m w)
  unfolding create_or_get_idempotent_booking
  create_or_get-Grown booking slot m w =
      by_rows (select (has_key booking.idempotency_key booking.user_id) w.db.bookings) refl
    where
      by_rows :
          (rows : List Booking)
          → select (has_key booking.idempotency_key booking.user_id) w.db.bookings ≡ rows
          → Grown w.db (create_or_get_idempotent_booking booking slot m w)
      by_rows [] e =
          let new : create_or_get_idempotent_booking booking slot m w
              ≡ create_booking_rows booking slot m w =
            ground arith in
          rw new (create_booking_rows-Grown booking slot m w)
      by_rows (b ∷ []) e =
          let same : create_or_get_idempotent_booking booking slot m w ≡ (ok b, w) = ground arith in
          rw same (Grows-refl w.db)
      by_rows (b ∷ c ∷ rest) e =
          let same : create_or_get_idempotent_booking booking slot m w
              ≡ (err multiple_results_found, w) =
            ground arith in
          rw same tt

  promote_entry-Grown :
      (entry : WaitlistEntry) (resource : Resource) (slot : Slot) (w : World s)
      → Grown w.db (promote_entry entry resource slot w)
  unfolding promote_entry
  promote_entry-Grown entry resource slot w =
      bind-Grown
        (create_or_get_idempotent_booking
          (promotion_booking entry resource slot (w.clock w.reads) (w.clock (suc w.reads))) slot
          waitlist_promotion_hold_minutes)
        (λ b. do
          notices ← query (λ db. db.notifications)
          write
              (record_promotion (s.new_id (map (λ (n : Notification). n.id) notices)) entry slot b)
          pure b)
        (record w { reads = suc (suc w.reads) })
        (create_or_get-Grown _ slot waitlist_promotion_hold_minutes _)
        (λ b u. record { refunds = refl; bookings = λ k c e. e })

  promote_next-Grown :
      (slot : Slot) (entry : Option WaitlistEntry) (w : World s)
      → Grown w.db (promote_next slot entry w)
  unfolding promote_next promote_for
  promote_next-Grown slot none w = Grows-refl w.db
  promote_next-Grown slot (some entry) w =
      elim (Option-cases (get_resource slot.resource_id w.db)) [
        | inl e ↦ rw e (Grows-refl w.db)
        | inr (resource, e) ↦ rw e (
            bind-Grown (promote_entry entry resource slot) (λ b. pure (b.id ∷ [])) w
              (promote_entry-Grown entry resource slot w) (λ b u. Grows-refl u.db))
      ]

  promote_slot-Grown : (slot : Slot) (w : World s) → Grown w.db (promote_slot slot w)
  unfolding promote_slot
  promote_slot-Grown slot w = by_entries (matching_entries slot w.db) refl
    where
      by_entries :
          (entries : List WaitlistEntry)
          → matching_entries slot w.db ≡ entries
          → Grown w.db (promote_slot slot w)
      by_entries [] e = rw e (promote_next-Grown slot none w)
      by_entries (x ∷ []) e = rw e (promote_next-Grown slot (some x) w)
      by_entries (x ∷ y ∷ rest) e = rw e tt

  -- A run of promotions that ends well keeps the refunds and the bookings that were there.
  pub promote_waitlist_entries_for_slots-Grown :
      (slots : List Slot) (w : World s) → Grown w.db (promote_waitlist_entries_for_slots slots w)
  unfolding promote_waitlist_entries_for_slots
  promote_waitlist_entries_for_slots-Grown [] w = Grows-refl w.db
  promote_waitlist_entries_for_slots-Grown (slot ∷ slots) w =
      bind-Grown (promote_slot slot)
        (λ ids. do more ← promote_waitlist_entries_for_slots slots; pure (ids ++ more)) w
        (promote_slot-Grown slot w)
        (λ ids u.
          bind-Grown (promote_waitlist_entries_for_slots slots) (λ more. pure (ids ++ more)) u
            (promote_waitlist_entries_for_slots-Grown slots u) (λ more v. Grows-refl v.db))
