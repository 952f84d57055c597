-- ===== src/Api/Bookings/Lists.antt =====
-- `list_bookings` of backend/src/apps/booking/api/v1/bookings.py: the caller's bookings, newest
-- first, a page at a time.
pub mod Newest
pub mod Cursor
use slot_booking.Base.{
  ℕ, suc, Bool, true, ◌&&◌, List, [], ◌∷◌, ◌++◌, Option, none, some, select, take, length, ltb,
  ◌==◌, if◌then◌else◌,
}
use slot_booking.Models.{Booking}
use slot_booking.Effects.{Services, World, Action, pure, query, ◌>>=◌}

pub record BookingPage : Type 0 where
  pub items : List Booking
  pub next_cursor : Option ℕ

-- `if tenant_id:` and `if cursor:`, the ids decoded; an empty text is no id.
abbrev pub is_own : ℕ → Option ℕ → Booking → Bool
is_own user tenant b = b.user_id == user && elim tenant [ none ↦ true | some t ↦ b.tenant_id == t ]

abbrev pub is_before : Option ℕ → Booking → Bool
is_before cursor b = elim cursor [ none ↦ true | some c ↦ ltb b.id c ]

-- `order_by(Booking.id.desc())`
abbrev pub insert_newest : Booking → List Booking → List Booking
insert_newest b [] = b ∷ []
insert_newest b (x ∷ rows) =
    let rest = insert_newest b rows in if ltb x.id b.id then b ∷ x ∷ rows else x ∷ rest

abbrev pub newest_first : List Booking → List Booking
newest_first [] = []
newest_first (b ∷ rows) = insert_newest b (newest_first rows)

-- `items[-1].id`
abbrev pub last_id : List Booking → Option ℕ
last_id [] = none
last_id (x ∷ []) = some x.id
last_id (x ∷ y ∷ rows) = last_id (y ∷ rows)

abbrev pub page_of_rows : ℕ → List Booking → BookingPage
page_of_rows limit rows =
    let items = take limit rows in
    record { items = items; next_cursor = if ltb limit (length rows) then last_id items else none }

module _ {s : Services} where
  unfoldable pub list_bookings : Option ℕ → Option ℕ → ℕ → ℕ → Action (World s) BookingPage
  list_bookings tenant cursor limit user = do
    rows ← query (λ db.
        take (suc limit)
          (newest_first (select (λ b. is_own user tenant b && is_before cursor b) db.bookings)))
    pure (page_of_rows limit rows)
