-- ===== src/Api/Bookings/Lists/Cursor.antt =====
-- A client that follows the cursor of `list_bookings` gets each of its bookings once.
use slot_booking.Base.{
  ℕ, zero, suc, ◌≤◌, ◌≡◌, refl, sym, ap, ◌∙◌, inl, inr, Bool-cases, Option-cases, true, List, [],
  ◌∷◌, ◌++◌, Option, none, some, select, take, drop, length, ltb, All, All-map, All-select, subst,
  arith,
}
use slot_booking.Base.Slices.{
  take-append-drop, take-take-suc, ltb-take-suc, append_nil, take_all, length-drop-suc,
}
use slot_booking.Models.{Booking}
use slot_booking.Effects.{Services, World, Action, ok, pure, ◌>>=◌}
use slot_booking.Api.Bookings.Lists.{
  BookingPage, is_own, is_before, newest_first, last_id, page_of_rows, list_bookings,
}
use slot_booking.Api.Bookings.Lists.Newest.{
  HasBookingIds, IsNewestFirst, newest_first-IsNewestFirst, select-newest_first,
  select-IsNewestFirst, select-select, select-select_sub, select_everything, HasBookingIds-select,
  length-select, length-newest_first,
}

-- The requests of a client: page after page while there is a cursor, for a number of rounds.
unfoldable pub follow_cursor :
    {W : Type 0} → (Option ℕ → Action W BookingPage) → ℕ → Option ℕ → Action W (List Booking)
follow_cursor request zero cursor = pure []
follow_cursor request (suc fuel) cursor = request cursor >>= λ page.
    elim page.next_cursor [ none ↦ pure [] | some c ↦ follow_cursor request fuel (some c) ]
    >>= λ rest. pure (page.items ++ rest)

-- What holds of all rows holds of the last one taken.
All-last_id :
    (P : ℕ → Type 0) (n : ℕ) (rows : List Booking) {c : ℕ}
    → All (λ (b : Booking). P b.id) rows
    → last_id (take n rows) ≡ some c
    → P c
All-last_id P zero rows h e = cc
All-last_id P (suc n) [] h e = cc
All-last_id P (suc zero) (x ∷ rows) h e = subst P (ground arith) h.0
All-last_id P (suc (suc n)) (x ∷ []) h e = subst P (ground arith) h.0
All-last_id P (suc (suc n)) (x ∷ y ∷ rows) h e = All-last_id P (suc n) (y ∷ rows) h.1 e

-- Before the last row taken are the rows that are left.
select-last_id :
    (n : ℕ) (rows : List Booking) (c : ℕ)
    → IsNewestFirst rows
    → last_id (take (suc n) rows) ≡ some c
    → select (is_before (some c)) rows ≡ drop (suc n) rows
select-last_id n [] c h e = refl
select-last_id zero (x ∷ rows) c h e =
    let same : x.id ≡ c = ground arith in
    let rest =
      select_everything (is_before (some c)) rows
        (All-map _ _ (λ y older. ground arith) rows h.0) in
    ground (arith, rest)
select-last_id (suc n) (x ∷ []) c h e = ground arith
select-last_id (suc n) (x ∷ y ∷ rows) c h e =
    let older : ltb c x.id ≡ true =
      All-last_id (λ i. ltb i x.id ≡ true) (suc n) (y ∷ rows) {c = c} h.0 e in
    ground (arith, select-last_id n (y ∷ rows) c h.1 e)

last_id-none : (n : ℕ) (rows : List Booking) → last_id (take (suc n) rows) ≡ none → length rows ≡ 0
last_id-none n [] e = refl
last_id-none zero (x ∷ rows) e = absurd (ground arith)
last_id-none (suc n) (x ∷ []) e = absurd (ground arith)
last_id-none (suc n) (x ∷ y ∷ rows) e =
    absurd (ground (arith, last_id-none n (y ∷ rows) (ground arith)))

-- What is before the last row of a page is before the page's own cursor.
before_last :
    (n : ℕ) (cursor : Option ℕ) (rows : List Booking) (c : ℕ)
    → last_id (take n (select (is_before cursor) rows)) ≡ some c
    → (b : Booking) → is_before (some c) b ≡ true
    → is_before cursor b ≡ true
before_last n none rows c e b h = refl
before_last n (some d) rows c e b h =
    let older : ltb c d ≡ true =
      All-last_id (λ i. ltb i d ≡ true) n (select (is_before (some d)) rows) {c = c}
        (All-select (is_before (some d)) rows) e in
    ground arith

module _ {W : Type 0} (request : Option ℕ → Action W BookingPage) (n : ℕ) (rows : List Booking)
    (sorted : IsNewestFirst rows) (w : W)
    (answers : (cursor : Option ℕ)
      → request cursor w ≡ (
        ok (page_of_rows (suc n) (take (suc (suc n)) (select (is_before cursor) rows))),
        w,
      )) where
  left_after :
      (cursor : Option ℕ) (c : ℕ)
      → last_id (take (suc n) (select (is_before cursor) rows)) ≡ some c
      → select (is_before (some c)) rows ≡ drop (suc n) (select (is_before cursor) rows)
  left_after cursor c e =
      sym (
        select-select_sub (is_before cursor) (is_before (some c))
          (before_last (suc n) cursor rows c e) rows)
      ∙ select-last_id n (select (is_before cursor) rows) c
          (select-IsNewestFirst (is_before cursor) rows sorted) e

  follow_cursor_lem :
      (fuel : ℕ) (cursor : Option ℕ)
      → length (select (is_before cursor) rows) ≤ fuel
      → follow_cursor request fuel cursor w ≡ (ok (select (is_before cursor) rows), w)
  unfolding follow_cursor
  follow_cursor_lem zero cursor enough =
      ap (λ xs. (ok xs, w)) (take_all 0 (select (is_before cursor) rows) (ground arith))
  follow_cursor_lem (suc fuel) cursor enough =
      let left = select (is_before cursor) rows in
      let page = take-take-suc (suc n) left in
      let more = ltb-take-suc (suc n) left in
      elim (Bool-cases (ltb (suc n) (length left))) [
        | inr last ↦
            ground (arith, answers cursor, page, more, take_all (suc n) left last, append_nil left)
        | inl further ↦ elim (Option-cases (last_id (take (suc n) left))) [
          | inl absent ↦ absurd (ground (arith, last_id-none n left absent))
          | inr (c, e) ↦
              let rest = left_after cursor c e in
              let shorter : length (select (is_before (some c)) rows) ≤ fuel =
                subst (λ xs. length xs ≤ fuel) (sym rest) (length-drop-suc n fuel left enough) in
              ground (
                arith,
                answers cursor,
                page,
                more,
                e,
                follow_cursor_lem fuel (some c) shorter,
                rest,
                take-append-drop (suc n) left,
              )
        ]
      ]

module _ {s : Services} where
  abbrev pub own_bookings : ℕ → Option ℕ → World s → List Booking
  own_bookings user tenant w = select (is_own user tenant) w.db.bookings

  list_bookings_lem :
      (tenant : Option ℕ) (limit user : ℕ) (w : World s)
      → HasBookingIds w.db.bookings
      → (cursor : Option ℕ)
      → list_bookings tenant cursor limit user w ≡ (
        ok (
            page_of_rows limit (
              take
                (suc limit)
                (select (is_before cursor) (newest_first (own_bookings user tenant w))))),
        w,
      )
  unfolding list_bookings
  list_bookings_lem tenant limit user w ids cursor =
      let own = own_bookings user tenant w in
      let rows =
        ap newest_first (sym (select-select (is_own user tenant) (is_before cursor) w.db.bookings))
        ∙ sym (
            select-newest_first (is_before cursor) own
              (HasBookingIds-select (is_own user tenant) w.db.bookings ids)) in
      ap (λ xs. (ok (page_of_rows limit (take (suc limit) xs)), w)) rows

  -- A user who asks for its bookings, of one tenant or of all, with any limit of one or more, and who
  -- follows the cursor as long as there is one, gets every one of its bookings once, from the highest
  -- id to the lowest, within one request more than there are bookings, if no two share an id.
  pub list_bookings_covers :
      (tenant : Option ℕ) (n user : ℕ) (w : World s)
      → HasBookingIds w.db.bookings
      → let own = newest_first (own_bookings user tenant w) in
        (follow_cursor
            (λ cursor. list_bookings tenant cursor (suc n) user)
            (suc (length w.db.bookings))
            none
            w
          ≡ (ok own, w))
        × IsNewestFirst own
  list_bookings_covers tenant n user w ids =
      let own = own_bookings user tenant w in
      let sorted =
        newest_first-IsNewestFirst own
          (HasBookingIds-select (is_own user tenant) w.db.bookings ids) in
      let all =
        select_everything (is_before none) (newest_first own) (every_row (newest_first own)) in
      let enough : length (select (is_before none) (newest_first own))
          ≤ suc (length w.db.bookings) =
        omega (
          arith,
          ap length all,
          length-newest_first own,
          length-select (is_own user tenant) w.db.bookings,
        ) in
      (
        follow_cursor_lem (λ cursor. list_bookings tenant cursor (suc n) user) n (newest_first own)
              sorted w (list_bookings_lem tenant (suc n) user w ids) (suc (length w.db.bookings))
              none enough
            ∙ ap (λ xs. (ok xs, w)) all,
        sorted,
      )
    where
      every_row : (rows : List Booking) → All (λ b. is_before none b ≡ true) rows
      every_row [] = tt
      every_row (b ∷ rows) = (refl, every_row rows)
