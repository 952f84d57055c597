-- ===== src/Base/Dict.antt =====
-- A Python `dict` as the list of its items, in the order of insertion, under a test of its keys.
use slot_booking.Base.{
  Bool, true, false, List, [], ◌∷◌, Option, none, some, if◌then◌else◌, ◌≡◌, refl, ap, arith, inl,
  inr, Bool-cases,
}

-- A test of keys that is their equality.
pub record IsEquality {K : Type 0} (eq : K → K → Bool) : Type 0 where
  pub reflexive : (k : K) → eq k k ≡ true
  pub equal : (j k : K) → eq j k ≡ true → j ≡ k

module _ {K V : Type 0} (eq : K → K → Bool) where
  -- `d.get(k)`
  abbrev pub lookup : K → List (K × V) → Option V
  lookup k [] = none
  lookup k ((j, v) ∷ items) = if eq j k then some v else lookup k items

  -- `d[k] = v`
  abbrev pub assign : K → V → List (K × V) → List (K × V)
  assign k v [] = (k, v) ∷ []
  assign k v ((j, u) ∷ items) = if eq j k then (j, v) ∷ items else (j, u) ∷ assign k v items

  -- `d.pop(k, None)` and `del d[k]`
  abbrev pub discard : K → List (K × V) → List (K × V)
  discard k [] = []
  discard k ((j, u) ∷ items) = if eq j k then discard k items else (j, u) ∷ discard k items

  module _ (laws : IsEquality eq) where
    pub lookup-assign_self :
        (k : K) (v : V) (items : List (K × V)) → lookup k (assign k v items) ≡ some v
    lookup-assign_self k v [] = ground (arith, laws.reflexive k)
    lookup-assign_self k v ((j, u) ∷ items) = ground (arith, lookup-assign_self k v items)

    pub lookup-assign_ne :
        (i k : K) (v : V) (items : List (K × V))
        → eq k i ≡ false
        → lookup i (assign k v items) ≡ lookup i items
    lookup-assign_ne i k v [] ne = ground arith
    lookup-assign_ne i k v ((j, u) ∷ items) ne = elim (Bool-cases (eq j k)) [
      | inl e ↦ ground (arith, ap (λ x. eq x i) (laws.equal j k e))
      | inr e ↦ ground (arith, lookup-assign_ne i k v items ne)
    ]

    pub lookup-discard_self : (k : K) (items : List (K × V)) → lookup k (discard k items) ≡ none
    lookup-discard_self k [] = refl
    lookup-discard_self k ((j, u) ∷ items) = ground (arith, lookup-discard_self k items)

    pub lookup-discard_ne :
        (i k : K) (items : List (K × V))
        → eq k i ≡ false
        → lookup i (discard k items) ≡ lookup i items
    lookup-discard_ne i k [] ne = refl
    lookup-discard_ne i k ((j, u) ∷ items) ne = elim (Bool-cases (eq j k)) [
      | inl e ↦ ground (arith, ap (λ x. eq x i) (laws.equal j k e), lookup-discard_ne i k items ne)
      | inr e ↦ ground (arith, lookup-discard_ne i k items ne)
    ]
