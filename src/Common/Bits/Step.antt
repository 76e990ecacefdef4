-- ===== src/Common/Bits/Step.antt =====
-- What each operation on words does to the lowest binary digit and to the rest.
use Prim.Native.Nat.{
  ℕ, zero, suc, ◌+◌, ◌*◌, ◌/◌, ◌%◌, ◌≤◌, min, max, differ, bit_and, bit_or, bit_xor,
}
use Prim.Native.Nat.{digits, bitwise, bit_and-bitwise, bit_or-bitwise, bit_xor-bitwise}
use mathlib.Core.Path.{◌≡◌, refl}
use native.Mathlib.Nat.{le_refl}
use native.Mathlib.Omega.{arith}

-- A word that its fuel covers has the same digits for any two amounts of it.
module _ (tail : ℕ → ℕ) (op : ℕ → ℕ → ℕ) where
  more_fuel : (y x u v : ℕ) → x ≤ u → x ≤ v → digits tail op v x y ≡ digits tail op u x y
  more_fuel y zero zero zero covers covers' = refl
  more_fuel y zero (suc u) zero covers covers' = refl
  more_fuel y zero zero (suc v) covers covers' = refl
  more_fuel y zero (suc u) (suc v) covers covers' = refl
  more_fuel y (suc x) (suc u) (suc v) covers covers' =
      rw (more_fuel (y / 2) (suc x / 2) u v (omega arith) (omega arith))
  more_fuel y (suc x) zero v covers covers' = absurd (omega arith)
  more_fuel y (suc x) (suc u) zero covers covers' = absurd (omega arith)

  lowest_digit :
      (y x : ℕ)
      → bitwise tail op (suc x) y ≡ op (suc x % 2) (y % 2) + bitwise tail op (suc x / 2) (y / 2) * 2
  lowest_digit y x =
      let half = suc x / 2 in
      omega (arith, more_fuel (y / 2) half x half (omega arith) (le_refl half))

pub bit_xor_step : (x y : ℕ) → bit_xor x y ≡ bit_xor (x / 2) (y / 2) * 2 + differ (x % 2) (y % 2)
bit_xor_step (suc x) y = simp bit_xor-bitwise (omega (arith, lowest_digit (λ v. v) differ y x))
bit_xor_step zero y = simp bit_xor-bitwise (omega arith)

pub bit_and_step : (x y : ℕ) → bit_and x y ≡ bit_and (x / 2) (y / 2) * 2 + min (x % 2) (y % 2)
bit_and_step (suc x) y = simp bit_and-bitwise (omega (arith, lowest_digit (λ v. 0) min y x))
bit_and_step zero y = simp bit_and-bitwise (omega arith)

pub bit_or_step : (x y : ℕ) → bit_or x y ≡ bit_or (x / 2) (y / 2) * 2 + max (x % 2) (y % 2)
bit_or_step (suc x) y = simp bit_or-bitwise (omega (arith, lowest_digit (λ v. v) max y x))
bit_or_step zero y = simp bit_or-bitwise (omega arith)
