-- ===== src/Common/Maps.antt =====
-- The keys of a `std::map` from byte strings: their order, and two of them.
use mathlib.Core.Path.{◌≡◌, refl, sym, ◌∙◌}
use mathlib.Core.Logic.{inl, inr}
use mathlib.Core.List.{[], ◌∷◌}
use mathlib.Core.Bool.{Bool, true, false}
use mathlib.Core.Option.{Option}
use services_backend.Common.Tests.{ltb, ◌==◌, if◌then◌else◌, Bool-cases}
use services_backend.Common.Lists.{Bytes, bytes_eq, bytes_eq_refl, bytes_eq→eq}

-- `operator<` of `std::string`
abbrev pub bytes_lt : Bytes → Bytes → Bool
bytes_lt [] [] = false
bytes_lt [] (y ∷ ys) = true
bytes_lt (x ∷ xs) [] = false
bytes_lt (x ∷ xs) (y ∷ ys) = if x == y then bytes_lt xs ys else ltb x y

-- Two different keys are not both the one that is looked up.
pub two_keys :
    (key k0 k : Bytes) (a b c : Option Bytes)
    → bytes_eq k0 key ≡ false
    → (if bytes_eq k0 k then a else if bytes_eq key k then b else c)
      ≡ (if bytes_eq key k then b else if bytes_eq k0 k then a else c)
two_keys key k0 k a b c other = elim (Bool-cases (bytes_eq k0 k)) [
  | inr apart ↦ rw apart refl
  | inl first_is ↦ elim (Bool-cases (bytes_eq key k)) [
    | inr apart ↦ rw (first_is, apart) refl
    | inl both ↦
        let same : k0 ≡ key = bytes_eq→eq k0 k first_is ∙ sym (bytes_eq→eq key k both) in
        let clash : bytes_eq k0 key ≡ true = rw same (bytes_eq_refl key) in cc
  ]
]
