-- ===== src/Api/Recurring/Stored.antt =====
-- Where the bookings of a series are stored.
use slot_booking.Base.{
  ℕ, suc, ◌≡◌, refl, sym, ap, ◌∙◌, subst, Bool, true, ◌&&◌, List, [], ◌∷◌, ◌++◌, Option, none, any,
  select, All, All-select, ◌==◌, arith,
}
use mathlib.Core.List.{append-nil, append_assoc}
use slot_booking.Models.{Booking, Slot}
use slot_booking.Effects.{Services, World, ok, continue_ok, utcnow, ◌>>=◌, pure}
use slot_booking.Booking.Quote.{BookingQuoteResult, build_booking_quote, discount_of}
use slot_booking.Booking.Create.{has_key, create_or_get_idempotent_booking}
use slot_booking.Booking.Create.Rows.{create_booking_rows_bookings}
use slot_booking.Api.Recurring.{RecurringBookingRequest, series_booking, book_slot, book_slots}

-- There is a booking of the user under the id.
abbrev pub IsStored : ℕ → List Booking → ℕ → Type 0
IsStored user rows id = any (λ (b : Booking). b.id == id && b.user_id == user) rows ≡ true

any-append_old :
    (q : Booking → Bool) (xs ys : List Booking) → any q xs ≡ true → any q (xs ++ ys) ≡ true
any-append_old q [] ys e = absurd (ground arith)
any-append_old q (x ∷ xs) ys e = ground (arith, any-append_old q xs ys)

any-append_last :
    (q : Booking → Bool) (xs : List Booking) (y : Booking)
    → q y ≡ true
    → any q (xs ++ y ∷ []) ≡ true
any-append_last q [] y e = ground arith
any-append_last q (x ∷ xs) y e = ground (arith, any-append_last q xs y e)

any-selected :
    (p q : Booking → Bool) (xs rest : List Booking) (b : Booking)
    → select p xs ≡ b ∷ rest
    → q b ≡ true
    → any q xs ≡ true
any-selected p q [] rest b e h = absurd (ground arith)
any-selected p q (x ∷ xs) rest b e h = ground (arith, any-selected p q xs rest b)

-- What an action that made a booking has left of the tables.
abbrev pub Stores : {s : Services} → ℕ → World s → World s → ℕ → Type 0
Stores user w w' id =
    IsStored user w'.db.bookings id
    × (more : List Booking) × (w'.db.bookings ≡ w.db.bookings ++ more)

module _ {s : Services} where
  build_booking_quote_db :
      (tenant_id resource_id : ℕ) (code : Option _) (size : ℕ) (w : World s)
      → (build_booking_quote tenant_id resource_id code size w).1.db ≡ w.db
  unfolding build_booking_quote discount_of
  build_booking_quote_db tenant_id resource_id code size w = ground arith

  create_or_get-Stores :
      (booking : Booking) (slot : Slot) (m : ℕ) (w w' : World s) (made : Booking)
      → create_or_get_idempotent_booking booking slot m w ≡ (ok made, w')
      → Stores booking.user_id w w' made.id
  unfolding create_or_get_idempotent_booking
  create_or_get-Stores booking slot m w w' made h =
      by_rows (select (has_key booking.idempotency_key booking.user_id) w.db.bookings) refl
    where
      by_rows :
          (rows : List Booking)
          → select (has_key booking.idempotency_key booking.user_id) w.db.bookings ≡ rows
          → Stores booking.user_id w w' made.id
      by_rows [] e =
          let (row, added) = create_booking_rows_bookings booking slot m w w' made (ground arith) in
          let mine : (made.id == made.id && made.user_id == booking.user_id) ≡ true =
            ground (arith, ap (λ (b : Booking). b.user_id) row) in
          (
            ap (any (λ (b : Booking). b.id == made.id && b.user_id == booking.user_id)) added
                ∙ any-append_last _ w.db.bookings made mine,
            made ∷ [],
            added,
          )
      by_rows (b ∷ []) e =
          let row : made ≡ b = ground arith in
          let kept : w' ≡ w = ground arith in
          let key =
            subst (All (λ x. has_key booking.idempotency_key booking.user_id x ≡ true)) e
              (All-select (has_key booking.idempotency_key booking.user_id) w.db.bookings) in
          let mine : (b.id == made.id && b.user_id == booking.user_id) ≡ true =
            ground (arith, ap (λ (b : Booking). b.id) row, key.0) in
          (
            ap
                  (λ x.
                    any (λ (b : Booking). b.id == made.id && b.user_id == booking.user_id)
                      x.db.bookings)
                  kept
                ∙ any-selected _ _ w.db.bookings [] b e mine,
            [],
            ap (λ x. x.db.bookings) kept ∙ simp append-nil,
          )
      by_rows (b ∷ c ∷ rest) e = absurd (ground arith)

  book_slot-Stores :
      (p : RecurringBookingRequest) (user : ℕ) (slot : Slot) (index : ℕ) (w w' : World s)
      (made : Booking)
      → book_slot p user slot index w ≡ (ok made, w')
      → Stores user w w' made.id
  unfolding book_slot
  book_slot-Stores p user slot index w w' made h =
      let (q, e, rest) =
        continue_ok (build_booking_quote p.tenant_id p.resource_id none 1 w)
          (λ (q : BookingQuoteResult). utcnow >>= λ created. utcnow >>= λ updated.
            create_or_get_idempotent_booking (series_booking p user slot index q created updated)
              slot 10)
          made w' h in
      let v = (build_booking_quote p.tenant_id p.resource_id none 1 w).1 in
      let kept = build_booking_quote_db p.tenant_id p.resource_id none 1 w in
      let (there, more, added) =
        create_or_get-Stores
          (series_booking p user slot index q (v.clock v.reads) (v.clock (suc v.reads))) slot 10
          (record v { reads = suc (suc v.reads) }) w' made rest in
      (there, more, added ∙ ap (λ db. db.bookings ++ more) kept)

  pub book_slots_stores :
      (p : RecurringBookingRequest) (user : ℕ) (slots : List Slot) (index : ℕ) (w w' : World s)
      (ids : List ℕ)
      → book_slots p user slots index w ≡ (ok ids, w')
      → All (IsStored user w'.db.bookings) ids
        × (more : List Booking) × (w'.db.bookings ≡ w.db.bookings ++ more)
  unfolding book_slots
  book_slots_stores p user [] index w w' ids h =
      let none_made : ids ≡ [] = ground arith in
      let same : w' ≡ w = ground arith in
      (
        subst (All (IsStored user w'.db.bookings)) (sym none_made) tt,
        [],
        ap (λ x. x.db.bookings) same ∙ simp append-nil,
      )
  book_slots_stores p user (slot ∷ slots) index w w' ids h =
      let v = (book_slot p user slot index w).1 in
      let (b, e, rest) =
        continue_ok (book_slot p user slot index w)
          (λ b. book_slots p user slots (suc index) >>= λ rest. pure (b.id ∷ rest)) ids w' h in
      let (made, f, last) =
        continue_ok (book_slots p user slots (suc index) v) (λ rest. pure (b.id ∷ rest)) ids w'
          rest in
      let u = (book_slots p user slots (suc index) v).1 in
      let (there, more, added) = book_slot-Stores p user slot index w v b e in
      let (others, then_, grown) = book_slots_stores p user slots (suc index) v u made f in
      let same : u ≡ w' = ap (λ r. r.1) last in
      let all_ids : b.id ∷ made ≡ ids = ground arith in
      let first : IsStored user u.db.bookings b.id =
        ap (any (λ (x : Booking). x.id == b.id && x.user_id == user)) grown
        ∙ any-append_old _ v.db.bookings then_ there in
      let grown' : u.db.bookings ≡ w.db.bookings ++ (more ++ then_) =
        grown ∙ ap (λ rows. rows ++ then_) added ∙ append_assoc w.db.bookings more then_ in
      subst
        (λ x.
          All (IsStored user x.db.bookings) ids
          × (m : List Booking) × (x.db.bookings ≡ w.db.bookings ++ m))
        same
        (subst (All (IsStored user u.db.bookings)) all_ids (first, others), more ++ then_, grown')
