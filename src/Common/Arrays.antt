-- ===== src/Common/Arrays.antt =====
-- C arrays as lists, indexed by native numbers, and memory as a function of the address.
use Prim.Native.Nat.{ℕ, zero, suc, ◌+◌, ◌-◌, ◌<◌, ◌^◌}
use mathlib.Core.Path.{◌≡◌, ap}
use mathlib.Core.List.{List, [], ◌∷◌, ◌++◌}
use native.Mathlib.Omega.{arith}
use dunkos.Common.Tests.{◌==◌, if◌then◌else◌}

module _ {ℓ} {A : Type ℓ} where
  abbrev pub length : List A → ℕ
  length [] = 0
  length (x ∷ xs) = suc (length xs)

  pub length-append : (xs ys : List A) → length (xs ++ ys) ≡ length xs + length ys
  length-append [] ys = omega arith
  length-append (x ∷ xs) ys = omega (arith, length-append xs ys)

  -- The store `f` after the write of `v` at address `p`.
  abbrev pub update : (ℕ → A) → ℕ → A → ℕ → A
  update f p v q = if q == p then v else f q

-- The number of values of a 64-bit word.
abbrev pub word_limit : ℕ
word_limit = 2 ^ 64

module _ {ℓ} {A : Type ℓ} where
  abbrev pub get_or : List A → ℕ → A → A
  get_or [] i d = d
  get_or (x ∷ xs) zero d = x
  get_or (x ∷ xs) (suc i) d = get_or xs i d

  pub get_or-cons :
      (x : A) (xs : List A) (i : ℕ) (d : A) → 0 < i → get_or (x ∷ xs) i d ≡ get_or xs (i - 1) d
  get_or-cons x xs zero d h = absurd (omega arith)
  get_or-cons x xs (suc i) d h = ap (λ k. get_or xs k d) (omega arith)

  pub get_or_first : (x : A) (xs : List A) (i : ℕ) (d : A) → i ≡ 0 → get_or (x ∷ xs) i d ≡ x
  get_or_first x xs i d e = ap (λ k. get_or (x ∷ xs) k d) e
