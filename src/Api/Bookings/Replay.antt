-- ===== src/Api/Bookings/Replay.antt =====
-- What the route that creates a booking does with a request that is sent again.
use slot_booking.Base.{ℕ, ◌≡◌, refl, ap, ◌∙◌, String, List, [], ◌∷◌, Option, select, arith, false}
use slot_booking.Base.Text.{str_eq_refl}
use slot_booking.Models.{Database, Booking}
use slot_booking.Effects.{Services, World, ok}
use slot_booking.Booking.Create.{has_key, get_booking_by_idempotency_key}
use slot_booking.Booking.Create.Idempotence.{select-append_self}
use slot_booking.Api.Bookings.{BookingCreate, names_other, create_booking}
use slot_booking.Api.Bookings.Priced.{create_booking_priced}

-- A key under which the user has one booking.
create_booking_seen :
    {s : Services} (p : BookingCreate) (key request_id : String) (header : Option ℕ) (user : ℕ)
    (v : World s) (b : Booking)
    → select (has_key key user) v.db.bookings ≡ b ∷ []
    → names_other header p.tenant_id ≡ false
    → create_booking p key request_id header user v ≡ (ok b, v)
unfolding create_booking get_booking_by_idempotency_key
create_booking_seen p key request_id header user v b seen fits = ground arith

-- A request that was answered with a booking, sent again by the same user under the same key to a
-- session over the same committed bookings, gets the same booking and changes nothing, whatever else
-- the second request says, as long as its tenant header fits its tenant.
pub create_booking_replayed :
    {s : Services} (p again : BookingCreate) (key request_id other_id : String)
    (header other : Option ℕ) (user : ℕ) (w w' v : World s) (b : Booking)
    → create_booking p key request_id header user w ≡ (ok b, w')
    → w.db ≡ w.saved
    → v.db.bookings ≡ w'.saved.bookings
    → names_other other again.tenant_id ≡ false
    → create_booking again key other_id other user v ≡ (ok b, v)
unfolding create_booking get_booking_by_idempotency_key
create_booking_replayed {s} p again key request_id other_id header other user w w' v b h clean same
      fits =
    replay (select (has_key key user) w.db.bookings) refl
  where
    replay :
        (rows : List Booking)
        → select (has_key key user) w.db.bookings ≡ rows
        → create_booking again key other_id other user v ≡ (ok b, v)
    replay [] e =
        let new = create_booking_priced p key request_id header user w w' b h e in
        let there =
          select-append_self (has_key key user) w.db.bookings b e
            (ground (arith, new, str_eq_refl key)) in
        create_booking_seen again key other_id other user v b
          (ap (λ rows. select (has_key key user) rows) (same ∙ new.13) ∙ there) fits
    replay (x ∷ []) e =
        create_booking_seen again key other_id other user v b
          (ground (arith, ap (λ (d : Database). d.bookings) clean)) fits
    replay (x ∷ y ∷ rest) e = absurd (ground arith)
