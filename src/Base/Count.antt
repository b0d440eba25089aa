-- ===== src/Base/Count.antt =====
-- How many entries of a table are in use.
use Prim.Native.Nat.{ℕ, zero, suc, ◌+◌, ◌≤◌, ◌<◌}
use mathlib.Core.Path.{◌≡◌}
use mathlib.Core.Bool.{Bool, true, false}
use mathlib.Core.List.{List, [], ◌∷◌}
use native.Mathlib.Omega.{arith}
use native.Mathlib.Decide.{dec_lt}
use mathlib.Core.Logic.{inl, inr}
use dthread.Base.Tests.{Bool-cases}
use dthread.Base.Lists.{length, get_or, set, set-of_length_le}

abbrev pub one_if : Bool → ℕ
one_if true = 1
one_if false = 0

module _ {ℓ} {A : Type ℓ} (used : A → Bool) where
  abbrev pub count_if : List A → ℕ
  count_if [] = 0
  count_if (x ∷ xs) = one_if (used x) + count_if xs

  pub count_if-le : (xs : List A) → count_if xs ≤ length xs
  count_if-le [] = omega arith
  count_if-le (x ∷ xs) = ground (arith, count_if-le xs)

  -- Writing an entry changes the count by what it replaces.
  pub count_if-set :
      (xs : List A) (i : ℕ) (v d : A)
      → i < length xs
      → count_if (set xs i v) + one_if (used (get_or xs i d)) ≡ count_if xs + one_if (used v)
  count_if-set [] i v d h = absurd (omega arith)
  count_if-set (x ∷ xs) zero v d h = omega arith
  count_if-set (x ∷ xs) (suc i) v d h = omega (arith, count_if-set xs i v d (omega arith))

  -- A table that is not full has an entry that is not in use.
  pub count_if-free :
      (xs : List A) (d : A)
      → count_if xs < length xs
      → (i : ℕ) × (i < length xs) × (used (get_or xs i d) ≡ false)
  count_if-free [] d h = absurd (omega arith)
  count_if-free (x ∷ xs) d h = elim (Bool-cases (used x)) [
    | inl e ↦ let (i, l, f) = count_if-free xs d (ground arith) in (suc i, omega arith, f)
    | inr e ↦ (0, omega arith, e)
  ]

  -- In a table with no entry in use every entry is free.
  pub count_if-zero :
      (xs : List A) (i : ℕ) (d : A) → count_if xs ≡ 0 → i < length xs → used (get_or xs i d) ≡ false
  count_if-zero [] i d e h = absurd (omega arith)
  count_if-zero (x ∷ xs) zero d e h = ground arith
  count_if-zero (x ∷ xs) (suc i) d e h = count_if-zero xs i d (omega arith) (omega arith)

  -- The first entry to be used in a table with no entry in use.
  pub count_if-set_first :
      (xs : List A) (i : ℕ) (v d : A)
      → count_if xs ≡ 0
      → used v ≡ true
      → i < length xs
      → 1 ≡ count_if (set xs i v)
  count_if-set_first xs i v d e t h =
      ground (arith, count_if-set xs i v d h, count_if-zero xs i d e h)

  -- Writing an entry that is in use as much as the one it replaces leaves the count alone.
  pub count_if-set_same :
      (xs : List A) (i : ℕ) (v d : A)
      → used v ≡ used (get_or xs i d)
      → count_if (set xs i v) ≡ count_if xs
  count_if-set_same xs i v d e = elim (dec_lt i (length xs)) [
    | yes h ↦ ground (arith, count_if-set xs i v d h)
    | no h ↦ rw (set-of_length_le xs i v (omega arith))
  ]
