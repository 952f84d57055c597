-- ===== src/Booking/Create/Idempotence.antt =====
-- The idempotency key of a booking.
use slot_booking.Base.{ℕ, ◌≡◌, refl, List, [], ◌∷◌, ◌++◌, true, Bool, select, arith}
use slot_booking.Base.Text.{str_eq_refl}
use slot_booking.Models.{Booking, Slot}
use slot_booking.Effects.{Services, World, ok}
use slot_booking.Booking.Create.{has_key, create_or_get_idempotent_booking}
use slot_booking.Booking.Create.Rows.{create_booking_rows_bookings}

-- The bookings under a key after one more is added.
pub select-append_self {ℓ} :
    {A : Type ℓ} (p : A → Bool) (xs : List A) (y : A)
    → select p xs ≡ []
    → p y ≡ true
    → select p (xs ++ y ∷ []) ≡ y ∷ []
select-append_self p [] y e h = rw h
select-append_self p (x ∷ xs) y e h = ground (arith, select-append_self p xs y)

-- Once a booking was made or found under a key, a later request of its user under that key gets the
-- same booking and changes nothing, whatever else it asks for.
pub create_or_get_idempotent_booking_twice :
    {s : Services} (booking again : Booking) (slot other : Slot) (minutes later : ℕ)
    (w w' v : World s) (made : Booking)
    → create_or_get_idempotent_booking booking slot minutes w ≡ (ok made, w')
    → v.db.bookings ≡ w'.db.bookings
    → again.idempotency_key ≡ booking.idempotency_key
    → again.user_id ≡ booking.user_id
    → create_or_get_idempotent_booking again other later v ≡ (ok made, v)
unfolding create_or_get_idempotent_booking
create_or_get_idempotent_booking_twice {s} booking again slot other minutes later w w' v made h same
      key user =
    found_again (select (has_key booking.idempotency_key booking.user_id) w.db.bookings) refl
  where
    found_again :
        (rows : List Booking)
        → select (has_key booking.idempotency_key booking.user_id) w.db.bookings ≡ rows
        → create_or_get_idempotent_booking again other later v ≡ (ok made, v)
    found_again [] e =
        let (row, added) =
          create_booking_rows_bookings booking slot minutes w w' made (ground arith) in
        let there =
          select-append_self (has_key booking.idempotency_key booking.user_id) w.db.bookings made e
            (ground (arith, str_eq_refl booking.idempotency_key)) in
        ground (arith, there)
    found_again (b ∷ []) e = ground arith
    found_again (b ∷ c ∷ rest) e = absurd (ground arith)
