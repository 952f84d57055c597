-- ===== src/Base/Text.antt =====
-- `str(n)` of a number, as the f-strings of the source write it, and texts compared.
use Prim.Native.String.{◌++◌}
use Prim.Native.Char.{code}
use text.Mathlib.Text.{◌==◌}
use text.Mathlib.TextEquality.{eq_iff}
use text.Mathlib.TextLemmas.{nil-append, cons-append}
use text.Mathlib.TextPositions.{eq_refl}
use slot_booking.Base.{
  ℕ, zero, suc, ◌+◌, ◌-◌, ◌*◌, ◌/◌, ◌%◌, ◌<◌, ◌≡◌, ◌≢◌, refl, sym, ap, ◌∙◌, String, Bool, true,
  false, ltb, if◌then◌else◌, arith, inl, inr, Bool-cases,
}

abbrev pub str_eq : String → String → Bool
str_eq s t = s == t

pub str_eq_refl : (s : String) → str_eq s s ≡ true
str_eq_refl = eq_refl

infixr 64 ◌+++◌
-- Texts one after the other.
abbrev pub ◌+++◌ : String → String → String
s +++ t = s ++ t

digit : ℕ → String
digit zero = "0"
digit (suc zero) = "1"
digit (suc (suc zero)) = "2"
digit (suc (suc (suc zero))) = "3"
digit (suc (suc (suc (suc zero)))) = "4"
digit (suc (suc (suc (suc (suc zero))))) = "5"
digit (suc (suc (suc (suc (suc (suc zero)))))) = "6"
digit (suc (suc (suc (suc (suc (suc (suc zero))))))) = "7"
digit (suc (suc (suc (suc (suc (suc (suc (suc zero)))))))) = "8"
digit _ = "9"

-- The digits of `n`, with fuel that is above `n`.
decimal : ℕ → ℕ → String
decimal zero n = ""
decimal (suc fuel) n =
    let front = decimal fuel (n / 10) in if ltb n 10 then digit n else front +++ digit (n % 10)

unfoldable pub str : ℕ → String
unfolding decimal digit
str n = decimal (suc n) n

str_example : str 1907 ≡ "1907"
unfolding str
str_example = refl

-- The number that a text of digits stands for, after the digits that came before.
value_from : ℕ → String → ℕ
value_from acc String.[] = acc
value_from acc (String.◌∷◌ c s) = value_from (acc * 10 + (code c - 48)) s

pub value : String → ℕ
unfolding value_from
value s = value_from 0 s

value_from-append :
    (acc : ℕ) (s t : String) → value_from acc (s ++ t) ≡ value_from (value_from acc s) t
unfolding value_from
value_from-append acc String.[] t = rw nil-append
value_from-append acc (String.◌∷◌ c s) t =
    rw (cons-append c s t) (value_from-append (acc * 10 + (code c - 48)) s t)

value_from-digit : (acc d : ℕ) → d < 10 → value_from acc (digit d) ≡ acc * 10 + d
unfolding value_from digit
value_from-digit acc zero h = omega arith
value_from-digit acc (suc zero) h = omega arith
value_from-digit acc (suc (suc zero)) h = omega arith
value_from-digit acc (suc (suc (suc zero))) h = omega arith
value_from-digit acc (suc (suc (suc (suc zero)))) h = omega arith
value_from-digit acc (suc (suc (suc (suc (suc zero))))) h = omega arith
value_from-digit acc (suc (suc (suc (suc (suc (suc zero)))))) h = omega arith
value_from-digit acc (suc (suc (suc (suc (suc (suc (suc zero))))))) h = omega arith
value_from-digit acc (suc (suc (suc (suc (suc (suc (suc (suc zero)))))))) h = omega arith
value_from-digit acc (suc (suc (suc (suc (suc (suc (suc (suc (suc d))))))))) h = omega arith

value_from-decimal : (fuel n : ℕ) → n < fuel → value_from 0 (decimal fuel n) ≡ n
unfolding decimal
value_from-decimal zero n h = absurd (omega arith)
value_from-decimal (suc fuel) n h = elim (Bool-cases (ltb n 10)) [
  | inl small ↦ rw (small, decimal) (value_from-digit 0 n (ground arith) ∙ omega arith)
  | inr large ↦
      rw (large, decimal, value_from-append 0 (decimal fuel (n / 10)) (digit (n % 10)))
        (value_from-digit (value_from 0 (decimal fuel (n / 10))) (n % 10) (omega arith)
          ∙ ground (arith, value_from-decimal fuel (n / 10)))
]

-- The digits of a number stand for it.
pub value-str : (n : ℕ) → value (str n) ≡ n
unfolding value str
value-str n = value_from-decimal (suc n) n (omega arith)

pub str-injective : {m n : ℕ} → str m ≡ str n → m ≡ n
str-injective {m} {n} e = sym (value-str m) ∙ ap value e ∙ value-str n

pub str-nonempty : (n : ℕ) → str n ≢ ""
unfolding str value value_from
str-nonempty zero e = ground (arith, (eq_iff (str 0) "").1 e)
str-nonempty (suc n) e = absurd (omega (arith, value-str (suc n), ap value e))

-- Texts that the program tells apart.
pub str_ne : (s t : String) → str_eq s t ≡ false → s ≢ t
str_ne s t differ e = ground (arith, (eq_iff s t).1 e)
