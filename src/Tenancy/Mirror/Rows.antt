-- ===== src/Tenancy/Mirror/Rows.antt =====
-- Whether a row passes a test after one row was added, removed or replaced.
use slot_booking.Base.{
  subst, ℕ, Bool, true, false, ◌&&◌, List, [], ◌∷◌, ◌≡◌, refl, ap, some, any, find_by, All, inl,
  inr, Bool-cases, arith,
}
use slot_booking.Models.{put_row, remove_row}

module _ {A : Type 0} where
  pub any-and : (q r : A → Bool) (xs : List A) → any q xs ≡ false → any (λ x. q x && r x) xs ≡ false
  any-and q r [] e = refl
  any-and q r (x ∷ xs) e = ground (arith, any-and q r xs)

  pub All-find_by :
      (P : A → Type 0) (q : A → Bool) (xs : List A) {x : A} → find_by q xs ≡ some x → All P xs → P x
  All-find_by P q [] e h = cc
  All-find_by P q (y ∷ xs) {x} e h = elim (Bool-cases (q y)) [
    | inl here ↦ subst P (ground arith) h.0
    | inr there ↦ All-find_by P q xs (ground arith) h.1
  ]

  module _ (key : A → ℕ) (m : A) (q : A → Bool) where
    pub any-remove_row_kept :
        (rows : List A)
        → All (λ x. key m ≡ key x → x ≡ m) rows
        → q m ≡ false
        → any q (remove_row key (key m) rows) ≡ any q rows
    any-remove_row_kept [] h e = refl
    any-remove_row_kept (x ∷ rows) h e = ground (arith, h.0, ap q, any-remove_row_kept rows h.1 e)

    pub any-remove_row_gone :
        (rows : List A)
        → All (λ x. q x ≡ true → x ≡ m) rows
        → any q (remove_row key (key m) rows) ≡ false
    any-remove_row_gone [] h = refl
    any-remove_row_gone (x ∷ rows) h = ground (arith, h.0, ap key, any-remove_row_gone rows h.1)

    module _ (m' : A) (same_key : key m' ≡ key m) where
      pub any-put_row_kept :
          (rows : List A)
          → All (λ x. key m ≡ key x → x ≡ m) rows
          → q m' ≡ q m
          → any q (put_row key m' rows) ≡ any q rows
      any-put_row_kept [] h e = refl
      any-put_row_kept (x ∷ rows) h e =
          ground (arith, h.0, ap q, same_key, any-put_row_kept rows h.1 e)

      pub any-put_row_gone :
          (rows : List A)
          → All (λ x. q x ≡ true → x ≡ m) rows
          → q m' ≡ false
          → any q (put_row key m' rows) ≡ false
      any-put_row_gone [] h e = refl
      any-put_row_gone (x ∷ rows) h e =
          ground (arith, h.0, ap key, same_key, any-put_row_gone rows h.1 e)

      pub any-put_row_there :
          (r : A → Bool) (rows : List A)
          → find_by r rows ≡ some m
          → q m' ≡ true
          → any q (put_row key m' rows) ≡ true
      any-put_row_there r [] f e = cc
      any-put_row_there r (x ∷ rows) f e =
          ground (arith, ap key, same_key, any-put_row_there r rows)
