-- ===== src/Tenancy/Mirror/Pairs.antt =====
-- Statements on all pairs of rows, after one row was added, removed or replaced.
use slot_booking.Base.{
  ℕ, List, [], ◌∷◌, ◌++◌, ◌≢◌, inl, inr, Bool-cases, All, All-append, All-map, ◌==◌, arith,
}
use slot_booking.Models.{put_row, remove_row}
use slot_booking.Models.Laws.{All-put_row, All-remove_row}

module _ {A : Type 0} where
  All-zip : (P Q : A → Type 0) (xs : List A) → All P xs → All Q xs → All (λ x. P x × Q x) xs
  All-zip P Q [] h k = tt
  All-zip P Q (x ∷ xs) h k = ((h.0, k.0), All-zip P Q xs h.1 k.1)

  abbrev pub Pairs : (A → A → Type 0) → List A → Type 0
  Pairs R xs = All (λ x. All (R x) xs) xs

  pub Pairs-append :
      (R : A → A → Type 0) (xs : List A) (m : A)
      → Pairs R xs
      → All (λ x. R x m) xs
      → All (R m) xs
      → R m m
      → Pairs R (xs ++ m ∷ [])
  Pairs-append R xs m h before after self =
      All-append (λ x. All (R x) (xs ++ m ∷ [])) xs (m ∷ [])
        (All-map (λ x. All (R x) xs × R x m) (λ x. All (R x) (xs ++ m ∷ []))
          (λ x k. All-append (R x) xs (m ∷ []) k.0 (k.1, tt)) xs
          (All-zip (λ x. All (R x) xs) (λ x. R x m) xs h before))
        (All-append (R m) xs (m ∷ []) after (self, tt), tt)

  module _ (key : A → ℕ) where
    pub Pairs-remove_row :
        (R : A → A → Type 0) (k : ℕ) (xs : List A) → Pairs R xs → Pairs R (remove_row key k xs)
    Pairs-remove_row R k xs h =
        All-remove_row key (λ x. All (R x) (remove_row key k xs)) k xs
          (All-map (λ x. All (R x) xs) (λ x. All (R x) (remove_row key k xs))
            (λ x. All-remove_row key (R x) k xs) xs h)

    All-put_row_ne :
        (P : A → Type 0) (r : A) (xs : List A)
        → P r
        → All (λ x. key x ≢ key r → P x) xs
        → All P (put_row key r xs)
    All-put_row_ne P r [] h k = tt
    All-put_row_ne P r (x ∷ xs) h k = (
      elim (Bool-cases (key x == key r)) [
        | inl e ↦ rw e h
        | inr e ↦ rw e (k.0 (λ same. ground arith))
      ],
      All-put_row_ne P r xs h k.1,
    )

    pub Pairs-put_row :
        (R : A → A → Type 0) (r : A) (xs : List A)
        → Pairs R xs
        → All (λ x. key x ≢ key r → R x r × R r x) xs
        → R r r
        → Pairs R (put_row key r xs)
    Pairs-put_row R r xs h others self =
        All-put_row_ne (λ x. All (R x) (put_row key r xs)) r xs
          (All-put_row_ne (R r) r xs self (
            All-map (λ x. key x ≢ key r → R x r × R r x) (λ x. key x ≢ key r → R r x)
              (λ x k ne. (k ne).1) xs others))
          (All-map (λ x. All (R x) xs × (key x ≢ key r → R x r × R r x))
            (λ x. key x ≢ key r → All (R x) (put_row key r xs))
            (λ x k ne. All-put_row key (R x) r xs (k.1 ne).0 k.0) xs
            (All-zip (λ x. All (R x) xs) (λ x. key x ≢ key r → R x r × R r x) xs h others))
