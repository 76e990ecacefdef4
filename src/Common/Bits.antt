-- ===== src/Common/Bits.antt =====
-- The bits of a number, and what the bit operations do to each of them.
mod Step
pub mod Masks
use Step.{bit_and_step, bit_or_step, bit_xor_step}
use Prim.Native.Nat.{ℕ, zero, suc, ◌+◌, ◌-◌, ◌*◌, ◌/◌, ◌%◌, ◌^◌, ◌<◌, ◌≤◌, min, max, differ}
use Prim.Native.Nat.{bit_and, bit_or, bit_xor}
use mathlib.Core.Path.{◌≡◌, refl}
use mathlib.Core.Logic.{◌⊎◌, inl, inr}
use mathlib.Core.Bool.{Bool, true, false, not, ◌&&◌, ◌||◌, xor}
use native.Mathlib.Nat.{pow-suc, one-le-pow}
use native.Mathlib.Omega.{arith}
use dunkos.Common.Tests.{◌==◌, bit_of}

-- Bit `i` of `w`.
unfoldable pub test_bit : ℕ → ℕ → Bool
test_bit w zero = w % 2 == 1
test_bit w (suc i) = test_bit (w / 2) i

low : (a : ℕ) → (a % 2 ≡ 0) ⊎ (a % 2 ≡ 1)
low a = ground arith

bit_and-zero_below : (n a : ℕ) → a ≤ n → bit_and a 0 ≡ 0
bit_and-zero_below n zero h = omega (arith, bit_and_step 0 0)
bit_and-zero_below zero (suc a) h = absurd (omega arith)
bit_and-zero_below (suc n) (suc a) h =
    omega (arith, bit_and_step (suc a) 0, bit_and-zero_below n (suc a / 2) (omega arith))

differ_digits : (a b : ℕ) → differ (a % 2) (b % 2) ≡ bit_of (xor (a % 2 == 1) (b % 2 == 1))
unfolding xor
differ_digits a b = go (a % 2) (b % 2) (low a) (low b)
  where
    go :
        (x y : ℕ)
        → (x ≡ 0) ⊎ (x ≡ 1)
        → (y ≡ 0) ⊎ (y ≡ 1)
        → differ x y ≡ bit_of (xor (x == 1) (y == 1))
    go x y (inl e) (inl f) = rw (e, f)
    go x y (inl e) (inr f) = rw (e, f)
    go x y (inr e) (inl f) = rw (e, f)
    go x y (inr e) (inr f) = rw (e, f)

test_bit-zero : (i : ℕ) → test_bit 0 i ≡ false
unfolding test_bit
test_bit-zero zero = refl
test_bit-zero (suc i) = test_bit-zero i

pub test_bit-and : (i a b : ℕ) → test_bit (bit_and a b) i ≡ (test_bit a i && test_bit b i)
unfolding test_bit
test_bit-and zero a b = ground (arith, bit_and_step a b, low a, low b)
test_bit-and (suc i) a b = rw (half) (test_bit-and i (a / 2) (b / 2))
  where
    half : bit_and a b / 2 ≡ bit_and (a / 2) (b / 2)
    half = ground (arith, bit_and_step a b, low a, low b)

pub test_bit-or : (i a b : ℕ) → test_bit (bit_or a b) i ≡ (test_bit a i || test_bit b i)
unfolding test_bit
test_bit-or zero a b = ground (arith, bit_or_step a b, low a, low b)
test_bit-or (suc i) a b = rw (half) (test_bit-or i (a / 2) (b / 2))
  where
    half : bit_or a b / 2 ≡ bit_or (a / 2) (b / 2)
    half = ground (arith, bit_or_step a b, low a, low b)

pub test_bit-xor : (i a b : ℕ) → test_bit (bit_xor a b) i ≡ xor (test_bit a i) (test_bit b i)
unfolding test_bit
test_bit-xor zero a b = ground (arith, bit_xor_step a b, differ_digits a b)
test_bit-xor (suc i) a b = rw (half) (test_bit-xor i (a / 2) (b / 2))
  where
    half : bit_xor a b / 2 ≡ bit_xor (a / 2) (b / 2)
    half = ground (arith, bit_xor_step a b, differ_digits a b)

pub test_bit-pow : (i k : ℕ) → test_bit (2 ^ k) i ≡ (i == k)
unfolding test_bit
test_bit-pow zero zero = refl
test_bit-pow zero (suc k) = ground (arith, pow-suc 2 k)
test_bit-pow (suc i) zero = ground (arith, test_bit-zero i)
test_bit-pow (suc i) (suc k) = rw (half) (ground (arith, test_bit-pow i k))
  where
    half : 2 ^ suc k / 2 ≡ 2 ^ k
    half = ground (arith, pow-suc 2 k)

-- `~a` on `n` bits.
pub test_bit-complement :
    (n i a : ℕ) → i < n → a < 2 ^ n → test_bit (2 ^ n - 1 - a) i ≡ not (test_bit a i)
unfolding test_bit
test_bit-complement zero i a h k = elim h [ ]
test_bit-complement (suc n) zero a h k = ground (arith, pow-suc 2 n, low a)
test_bit-complement (suc n) (suc i) a h k =
    rw (half) (test_bit-complement n i (a / 2) (omega arith) (ground (arith, pow-suc 2 n)))
  where
    half : (2 ^ suc n - 1 - a) / 2 ≡ 2 ^ n - 1 - a / 2
    half = ground (arith, pow-suc 2 n)

-- `w & (1 << k)` is not zero exactly when bit `k` is set.
pub bit_and-pow : (k w : ℕ) → (bit_and w (2 ^ k) == 0) ≡ not (test_bit w k)
unfolding test_bit
bit_and-pow zero w =
    ground (arith, bit_and_step w 1, bit_and-zero_below (w / 2) (w / 2) (omega arith), low w)
bit_and-pow (suc k) w =
    ground (arith, bit_and_step w (2 ^ suc k), pow-suc 2 k, bit_and-pow k (w / 2), half)
  where
    half : 2 ^ suc k / 2 ≡ 2 ^ k
    half = ground (arith, pow-suc 2 k)
