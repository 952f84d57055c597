-- ===== src/Models/Laws.antt =====
-- Reading a table after a row of it was replaced or added.
use slot_booking.Base.{
  ℕ, ◌≡◌, ◌≢◌, refl, List, [], ◌∷◌, ◌++◌, none, some, map, arith, All, Bool-cases, inl, inr, ◌==◌,
  subst,
}
use slot_booking.Models.Tables.{get_row, put_row, remove_row}

module _ {ℓ} {A : Type ℓ} (key : A → ℕ) where
  pub get_row-key : (k : ℕ) (rows : List A) {x : A} → get_row key k rows ≡ some x → key x ≡ k
  get_row-key k [] e = cc
  get_row-key k (y ∷ rows) {x} e = ground (arith, get_row-key k rows {x = x})

  -- A row that is there is replaced.
  pub get_row-put_row_self :
      (r x : A) (rows : List A)
      → get_row key (key r) rows ≡ some x
      → get_row key (key r) (put_row key r rows) ≡ some r
  get_row-put_row_self r x [] e = cc
  get_row-put_row_self r x (y ∷ rows) e = ground (arith, get_row-put_row_self r x rows)

  -- The rows of other keys stay.
  pub get_row-put_row_ne :
      (k : ℕ) (r : A) (rows : List A)
      → k ≢ key r
      → get_row key k (put_row key r rows) ≡ get_row key k rows
  get_row-put_row_ne k r [] h = refl
  get_row-put_row_ne k r (y ∷ rows) h = ground (arith, get_row-put_row_ne k r rows h)

  pub map-put_row : (r : A) (rows : List A) → map key (put_row key r rows) ≡ map key rows
  map-put_row r [] = refl
  map-put_row r (y ∷ rows) = ground (arith, map-put_row r rows)

  -- A row that is there is found after others are added.
  pub get_row-append :
      (k : ℕ) (rows more : List A) {x : A}
      → get_row key k rows ≡ some x
      → get_row key k (rows ++ more) ≡ some x
  get_row-append k [] more e = cc
  get_row-append k (y ∷ rows) more {x} e = ground (arith, get_row-append k rows more {x = x})

  -- A new row is found under its key, if no other row has it.
  pub get_row-append_new :
      (rows : List A) (r : A)
      → get_row key (key r) rows ≡ none
      → get_row key (key r) (rows ++ r ∷ []) ≡ some r
  get_row-append_new [] r e = ground arith
  get_row-append_new (y ∷ rows) r e = ground (arith, get_row-append_new rows r)

  -- What holds of all rows holds after one of them is replaced by a row of which it holds, and after
  -- one is removed.
  pub All-put_row {κ} :
      (P : A → Type κ) (r : A) (rows : List A) → P r → All P rows → All P (put_row key r rows)
  All-put_row P r [] h k = tt
  All-put_row P r (y ∷ rows) h k = (
    elim (Bool-cases (key y == key r)) [ inl e ↦ rw e h | inr e ↦ rw e k.0 ],
    All-put_row P r rows h k.1,
  )

  pub All-remove_row {κ} :
      (P : A → Type κ) (k : ℕ) (rows : List A) → All P rows → All P (remove_row key k rows)
  All-remove_row P k [] h = tt
  All-remove_row P k (y ∷ rows) h = elim (Bool-cases (key y == k)) [
    | inl e ↦ rw e (All-remove_row P k rows h.1)
    | inr e ↦ rw e (h.0, All-remove_row P k rows h.1)
  ]

  pub All-get_row {κ} :
      (P : A → Type κ) (k : ℕ) (rows : List A) {x : A}
      → get_row key k rows ≡ some x
      → All P rows
      → P x
  All-get_row P k [] e h = cc
  All-get_row P k (y ∷ rows) {x} e h = elim (Bool-cases (key y == k)) [
    | inl here ↦ subst P (ground arith) h.0
    | inr there ↦ All-get_row P k rows (ground arith) h.1
  ]

  -- Removing a row leaves the rows of other keys.
  pub get_row-remove_row_ne :
      (k j : ℕ) (rows : List A) → k ≢ j → get_row key k (remove_row key j rows) ≡ get_row key k rows
  get_row-remove_row_ne k j [] h = refl
  get_row-remove_row_ne k j (y ∷ rows) h = ground (arith, get_row-remove_row_ne k j rows h)
