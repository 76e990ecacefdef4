-- ===== src/Common/Bits/Masks.antt =====
-- What `bit_and` with a mask of adjacent ones reads: a field of the number.
use Prim.Native.Nat.{
  ℕ, zero, suc, ◌+◌, ◌-◌, ◌*◌, ◌/◌, ◌%◌, ◌^◌, ◌<◌, ◌≤◌, max, bit_and, bit_or, bit_and-bitwise,
  bit_or-bitwise,
}
use mathlib.Core.Path.{◌≡◌, refl, ap, sym, ◌∙◌}
use native.Mathlib.Nat.{one-le-pow, pow-suc, pow-succ', div-div-eq-div-mul, mod-add-div'}
use native.Mathlib.Omega.{arith}
use dunkos.Common.Bits.{bit_and_step, bit_or_step, bit_and-zero_below}

double : (m k : ℕ) → m * 2 ^ suc k ≡ 2 * (m * 2 ^ k)
double m k = grind (arith, pow-suc 2 k)

div_pow_suc : (a k : ℕ) → a / 2 ^ suc k ≡ a / 2 / 2 ^ k
div_pow_suc a k = ap (λ d. a / d) (pow-succ' 2 k) ∙ sym (div-div-eq-div-mul a 2 (2 ^ k))

-- Dropping the lowest `k` bits.
pub bit_and-div : (k a b : ℕ) → bit_and a b / 2 ^ k ≡ bit_and (a / 2 ^ k) (b / 2 ^ k)
bit_and-div zero a b =
    let same : (n : ℕ) → n / 2 ^ 0 ≡ n = λ n. omega arith in
    rw (same a, same b, same (bit_and a b)) refl
bit_and-div (suc k) a b =
    let half : bit_and a b / 2 ≡ bit_and (a / 2) (b / 2) = omega (arith, bit_and_step a b) in
    rw (div_pow_suc (bit_and a b) k, half, div_pow_suc a k, div_pow_suc b k)
      (bit_and-div k (a / 2) (b / 2))

pub bit_or-div : (k a b : ℕ) → bit_or a b / 2 ^ k ≡ bit_or (a / 2 ^ k) (b / 2 ^ k)
bit_or-div zero a b =
    let same : (n : ℕ) → n / 2 ^ 0 ≡ n = λ n. omega arith in
    rw (same a, same b, same (bit_or a b)) refl
bit_or-div (suc k) a b =
    let half : bit_or a b / 2 ≡ bit_or (a / 2) (b / 2) = omega (arith, bit_or_step a b) in
    rw (div_pow_suc (bit_or a b) k, half, div_pow_suc a k, div_pow_suc b k)
      (bit_or-div k (a / 2) (b / 2))

-- A mask whose lowest `k` bits are clear reads the number shifted by `k`.
pub bit_and-shifted : (k a m : ℕ) → bit_and a (m * 2 ^ k) ≡ bit_and (a / 2 ^ k) m * 2 ^ k
bit_and-shifted zero a m =
    let same : a / 2 ^ 0 ≡ a = omega arith in
    let same' : m * 2 ^ 0 ≡ m = omega arith in rw (same, same') (omega arith)
bit_and-shifted (suc k) a m =
    rw
      (
        double m k,
        div_pow_suc a k,
        double (bit_and (a / 2 / 2 ^ k) m) k,
        bit_and_step a (2 * (m * 2 ^ k)),
        half,
      )
      (omega (arith, half, bit_and-shifted k (a / 2) m))
  where
    half : 2 * (m * 2 ^ k) / 2 ≡ m * 2 ^ k
    half = omega arith

-- A mask of `k` ones reads the remainder.
pub bit_and-ones : (k a : ℕ) → bit_and a (2 ^ k - 1) ≡ a % 2 ^ k
bit_and-ones zero a = omega (arith, bit_and-zero_below a a (omega arith))
bit_and-ones (suc k) a =
    rw (bit_and_step a (2 ^ suc k - 1), half)
      (omega (
        arith,
        pow-succ' 2 k,
        bit_and-ones k (a / 2),
        mod-add-div' (a / 2) (2 ^ k),
        mod-add-div' a (2 ^ suc k),
        ap (λ q. q * 2 ^ suc k) (div_pow_suc a k),
        double (a / 2 / 2 ^ k) k,
        one-le-pow k 2 (omega arith),
      ))
  where
    half : (2 ^ suc k - 1) / 2 ≡ 2 ^ k - 1
    half = omega (arith, pow-succ' 2 k)

bit_or-zero_below : (n a : ℕ) → a ≤ n → bit_or a 0 ≡ a
bit_or-zero_below n zero h = omega (arith, bit_or_step 0 0)
bit_or-zero_below zero (suc a) h = absurd (omega arith)
bit_or-zero_below (suc n) (suc a) h =
    omega (arith, bit_or_step (suc a) 0, bit_or-zero_below n (suc a / 2) (omega arith))

bit_or-zero : (a : ℕ) → bit_or a 0 ≡ a
bit_or-zero a = bit_or-zero_below a a (omega arith)

-- Joining a number whose lowest `k` bits are clear with one below `2 ^ k` adds the two.
pub bit_or-disjoint : (k m f : ℕ) → f < 2 ^ k → bit_or (m * 2 ^ k) f ≡ m * 2 ^ k + f
bit_or-disjoint zero m f h =
    let none : f ≡ 0 = omega arith in rw none (omega (arith, bit_or-zero (m * 2 ^ 0)))
bit_or-disjoint (suc k) m f h =
    rw (double m k, bit_or_step (2 * (m * 2 ^ k)) f, half)
      (omega (arith, bit_or-disjoint k m (f / 2) (omega (arith, pow-succ' 2 k)), bit_max))
  where
    half : 2 * (m * 2 ^ k) / 2 ≡ m * 2 ^ k
    half = omega arith

    bit_max : max (2 * (m * 2 ^ k) % 2) (f % 2) ≡ f % 2
    bit_max = omega arith

bit_or_comm_below : (n a b : ℕ) → a ≤ n → bit_or a b ≡ bit_or b a
bit_or_comm_below n zero b h = omega (arith, bit_or-bitwise 0 b, bit_or-zero b)
bit_or_comm_below zero (suc a) b h = absurd (omega arith)
bit_or_comm_below (suc n) (suc a) b h = omega (
  arith,
  bit_or_step (suc a) b,
  bit_or_step b (suc a),
  bit_or_comm_below n (suc a / 2) (b / 2) (omega arith),
)

pub bit_or_comm : (a b : ℕ) → bit_or a b ≡ bit_or b a
bit_or_comm a b = bit_or_comm_below a a b (omega arith)

-- Bounds of the operations.
bit_and-le_below : (n a b : ℕ) → a ≤ n → bit_and a b ≤ b
bit_and-le_below n zero b h = omega (arith, bit_and-bitwise 0 b)
bit_and-le_below zero (suc a) b h = absurd (omega arith)
bit_and-le_below (suc n) (suc a) b h =
    omega (arith, bit_and_step (suc a) b, bit_and-le_below n (suc a / 2) (b / 2) (omega arith))

pub bit_and-le : (a b : ℕ) → bit_and a b ≤ b
bit_and-le a b = bit_and-le_below a a b (omega arith)

bit_or-le_below : (n a b : ℕ) → a ≤ n → bit_or a b ≤ a + b
bit_or-le_below n zero b h = omega (arith, bit_or-bitwise 0 b)
bit_or-le_below zero (suc a) b h = absurd (omega arith)
bit_or-le_below (suc n) (suc a) b h =
    omega (arith, bit_or_step (suc a) b, bit_or-le_below n (suc a / 2) (b / 2) (omega arith))

pub bit_or-le-add : (a b : ℕ) → bit_or a b ≤ a + b
bit_or-le-add a b = bit_or-le_below a a b (omega arith)
