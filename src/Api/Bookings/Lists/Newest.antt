-- ===== src/Api/Bookings/Lists/Newest.antt =====
-- The order of `list_bookings`: by falling ids, before or after rows are selected.
use slot_booking.Base.{
  suc, ◌≤◌, ◌≡◌, ◌≢◌, refl, ap, ◌∙◌, inl, inr, Bool, Bool-cases, true, ◌&&◌, List, [], ◌∷◌, select,
  length, ltb, All, All-map, All-select_sub, if◌then◌else◌, arith,
}
use slot_booking.Models.{Booking}
use slot_booking.Api.Bookings.Lists.{insert_newest, newest_first}

-- No two bookings share an id.
abbrev pub HasBookingIds : List Booking → Type 0
HasBookingIds [] = Unit
HasBookingIds (b ∷ rows) = All (λ (x : Booking). x.id ≢ b.id) rows × HasBookingIds rows

-- Each booking is newer than all that follow it.
abbrev pub IsNewestFirst : List Booking → Type 0
IsNewestFirst [] = Unit
IsNewestFirst (b ∷ rows) = All (λ x. ltb x.id b.id ≡ true) rows × IsNewestFirst rows

All-insert_newest :
    (P : Booking → Type 0) (b : Booking) (rows : List Booking)
    → P b
    → All P rows
    → All P (insert_newest b rows)
All-insert_newest P b [] h k = (h, tt)
All-insert_newest P b (x ∷ rows) h k = elim (Bool-cases (ltb x.id b.id)) [
  | inl e ↦ rw e (h, k)
  | inr e ↦ rw e (k.0, All-insert_newest P b rows h k.1)
]

All-newest_first :
    (P : Booking → Type 0) (rows : List Booking) → All P rows → All P (newest_first rows)
All-newest_first P [] h = tt
All-newest_first P (b ∷ rows) h =
    All-insert_newest P b (newest_first rows) h.0 (All-newest_first P rows h.1)

insert_newest-IsNewestFirst :
    (b : Booking) (rows : List Booking)
    → All (λ (x : Booking). x.id ≢ b.id) rows
    → IsNewestFirst rows
    → IsNewestFirst (insert_newest b rows)
insert_newest-IsNewestFirst b [] new h = (tt, tt)
insert_newest-IsNewestFirst b (x ∷ rows) new h = elim (Bool-cases (ltb x.id b.id)) [
  | inl e ↦ rw e ((e, All-map _ _ (λ y older. ground arith) rows h.0), h)
  | inr e ↦ rw e (
    All-insert_newest (λ y. ltb y.id x.id ≡ true) b rows (ground (arith, new.0)) h.0,
    insert_newest-IsNewestFirst b rows new.1 h.1,
  )
]

pub newest_first-IsNewestFirst :
    (rows : List Booking) → HasBookingIds rows → IsNewestFirst (newest_first rows)
newest_first-IsNewestFirst [] h = tt
newest_first-IsNewestFirst (b ∷ rows) h =
    insert_newest-IsNewestFirst b (newest_first rows) (All-newest_first _ rows h.0)
      (newest_first-IsNewestFirst rows h.1)

-- Rows are selected before or after they are sorted.
insert_newest_front :
    (b : Booking) (rows : List Booking)
    → All (λ x. ltb x.id b.id ≡ true) rows
    → insert_newest b rows ≡ b ∷ rows
insert_newest_front b [] h = refl
insert_newest_front b (x ∷ rows) h = ground (arith, h.0)

select-insert_newest :
    (q : Booking → Bool) (b : Booking) (rows : List Booking)
    → IsNewestFirst rows
    → select q (insert_newest b rows)
      ≡ (if q b then insert_newest b (select q rows) else select q rows)
select-insert_newest q b [] h = ground arith
select-insert_newest q b (x ∷ rows) h = elim (Bool-cases (ltb x.id b.id)) [
  | inl e ↦
      let front = insert_newest_front b (select q rows) (
        All-select_sub q _ rows
          (All-map _ (λ y. ltb y.id b.id ≡ true) (λ y older. ground arith) rows h.0)) in
      ground (arith, front)
  | inr e ↦ ground (arith, select-insert_newest q b rows h.1)
]

pub select-newest_first :
    (q : Booking → Bool) (rows : List Booking)
    → HasBookingIds rows
    → select q (newest_first rows) ≡ newest_first (select q rows)
select-newest_first q [] h = refl
select-newest_first q (b ∷ rows) h =
    let sorted = newest_first-IsNewestFirst rows h.1 in
    ground
      (arith, select-insert_newest q b (newest_first rows) sorted, select-newest_first q rows h.1)

pub select-IsNewestFirst :
    (q : Booking → Bool) (rows : List Booking) → IsNewestFirst rows → IsNewestFirst (select q rows)
select-IsNewestFirst q [] h = tt
select-IsNewestFirst q (x ∷ rows) h = elim (Bool-cases (q x)) [
  | inl e ↦ rw e (All-select_sub q _ rows h.0, select-IsNewestFirst q rows h.1)
  | inr e ↦ rw e (select-IsNewestFirst q rows h.1)
]

pub select-select :
    (p q : Booking → Bool) (rows : List Booking)
    → select q (select p rows) ≡ select (λ b. p b && q b) rows
select-select p q [] = refl
select-select p q (x ∷ rows) = ground (arith, select-select p q rows)

-- Where the second test implies the first.
pub select-select_sub :
    (p q : Booking → Bool)
    → ((b : Booking) → q b ≡ true → p b ≡ true)
    → (rows : List Booking) → select q (select p rows) ≡ select q rows
select-select_sub p q sub [] = refl
select-select_sub p q sub (x ∷ rows) = ground (arith, sub x, select-select_sub p q sub rows)

pub select_everything :
    (q : Booking → Bool) (rows : List Booking) → All (λ b. q b ≡ true) rows → select q rows ≡ rows
select_everything q [] h = refl
select_everything q (x ∷ rows) h = ground (arith, h.0, select_everything q rows h.1)

pub HasBookingIds-select :
    (q : Booking → Bool) (rows : List Booking) → HasBookingIds rows → HasBookingIds (select q rows)
HasBookingIds-select q [] h = tt
HasBookingIds-select q (x ∷ rows) h = elim (Bool-cases (q x)) [
  | inl e ↦ rw e (All-select_sub q _ rows h.0, HasBookingIds-select q rows h.1)
  | inr e ↦ rw e (HasBookingIds-select q rows h.1)
]

pub length-select :
    (q : Booking → Bool) (rows : List Booking) → length (select q rows) ≤ length rows
length-select q [] = omega arith
length-select q (x ∷ rows) = ground (arith, length-select q rows)

length-insert_newest :
    (b : Booking) (rows : List Booking) → length (insert_newest b rows) ≡ suc (length rows)
length-insert_newest b [] = refl
length-insert_newest b (x ∷ rows) = ground (arith, length-insert_newest b rows)

pub length-newest_first : (rows : List Booking) → length (newest_first rows) ≡ length rows
length-newest_first [] = refl
length-newest_first (b ∷ rows) =
    length-insert_newest b (newest_first rows) ∙ ap suc (length-newest_first rows)
