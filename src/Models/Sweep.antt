-- ===== src/Models/Sweep.antt =====
-- A loop that mends, by key, every row that a query found: afterwards the query finds none.
use slot_booking.Base.{
  ℕ, ◌≡◌, refl, sym, subst, Bool, true, false, List, [], ◌∷◌, select, any, All, ◌==◌, arith, inl,
  inr, Bool-cases,
}
use slot_booking.Models.Tables.{put_row}

module _ {ℓ} {A : Type ℓ} (key : A → ℕ) (p : A → Bool) (mend : A → A) where
  abbrev pub sweep : List A → List A → List A
  sweep [] rows = rows
  sweep (x ∷ found) rows = sweep found (put_row key (mend x) rows)

  -- What the query finds is still to be mended.
  abbrev Covered : List A → A → Type 0
  Covered found y = p y ≡ true → any (λ x. key x == key y) found ≡ true

  Covered-cons :
      (x : A) (found rows : List A) → All (Covered found) rows → All (Covered (x ∷ found)) rows
  Covered-cons x found [] h = tt
  Covered-cons x found (y ∷ rows) h = (λ e. ground (arith, h.0 e), Covered-cons x found rows h.1)

  Covered-select : (rows : List A) → All (Covered (select p rows)) rows
  Covered-select [] = tt
  Covered-select (y ∷ rows) = elim (Bool-cases (p y)) [
    | inl e ↦
        let found : select p (y ∷ rows) ≡ y ∷ select p rows = ground arith in
        subst (λ l. All (Covered l) (y ∷ rows)) (sym found)
          ((λ f. ground arith), Covered-cons y (select p rows) rows (Covered-select rows))
    | inr e ↦
        let skipped : select p (y ∷ rows) ≡ select p rows = ground arith in
        subst (λ l. All (Covered l) (y ∷ rows)) (sym skipped) ((λ f. cc), Covered-select rows)
  ]

  Covered-put :
      (x : A) (found rows : List A)
      → key (mend x) ≡ key x
      → p (mend x) ≡ false
      → All (Covered (x ∷ found)) rows
      → All (Covered found) (put_row key (mend x) rows)
  Covered-put x found [] same mended h = tt
  Covered-put x found (y ∷ rows) same mended h =
      (λ e. ground (arith, h.0), Covered-put x found rows same mended h.1)

  select-Covered : (rows : List A) → All (Covered []) rows → select p rows ≡ []
  select-Covered [] h = refl
  select-Covered (y ∷ rows) h = ground (arith, h.0, select-Covered rows h.1)

  module _ (same : (x : A) → key (mend x) ≡ key x) (mended : (x : A) → p (mend x) ≡ false) where
    sweep-Covered :
        (found rows : List A) → All (Covered found) rows → select p (sweep found rows) ≡ []
    sweep-Covered [] rows h = select-Covered rows h
    sweep-Covered (x ∷ found) rows h =
        sweep-Covered found (put_row key (mend x) rows)
          (Covered-put x found rows (same x) (mended x) h)

    pub select-sweep : (rows : List A) → select p (sweep (select p rows) rows) ≡ []
    select-sweep rows = sweep-Covered (select p rows) rows (Covered-select rows)
