-- ===== src/Common/Memory.antt =====
-- Numbers in the bytes of memory, the lowest byte first.
use dunkos.Common.{ℕ, zero, suc, ◌+◌, ◌-◌, ◌*◌, ◌/◌, ◌%◌, ◌^◌, ◌<◌, ◌≤◌, ◌≡◌, ap, sym, ◌∙◌, arith}
use dunkos.Common.{true, ◌&&◌, leb, ltb, if◌then◌else◌}
use native.Mathlib.Nat.{pow-suc, pow-succ', div-div-eq-div-mul, mod-add-div'}

abbrev Bytes : Type 0
Bytes = ℕ → ℕ

-- The numbers in `width` bytes, the lowest byte first.
unfoldable pub load : Bytes → ℕ → ℕ → ℕ
load mem p zero = 0
load mem p (suc width) = mem p % 256 + 256 * load mem (p + 1) width

unfoldable pub store : ℕ → ℕ → ℕ → Bytes → Bytes
store p width v mem q = if leb p q && ltb q (p + width) then v / 256 ^ (q - p) % 256 else mem q

-- A zeroed block of `n` bytes at `p`.
unfoldable pub zeroed : ℕ → ℕ → Bytes → Bytes
zeroed p n mem q = if leb p q && ltb q (p + n) then 0 else mem q

scale : (q a : ℕ) → q * (256 * a) ≡ 256 * (q * a)
scale q a = grind arith

split_byte : (x n : ℕ) → x % 256 + 256 * (x / 256 % 256 ^ n) ≡ x % 256 ^ suc n
split_byte x n =
    let q = x / 256 / 256 ^ n in
    let higher : x / 256 ^ suc n ≡ q =
      ap (λ d. x / d) (pow-succ' 256 n) ∙ sym (div-div-eq-div-mul x 256 (256 ^ n)) in
    let scaled : q * 256 ^ suc n ≡ 256 * (q * 256 ^ n) =
      ap (λ d. q * d) (pow-succ' 256 n) ∙ scale q (256 ^ n) in
    omega (
      arith,
      scaled,
      ap (λ d. d * 256 ^ suc n) higher,
      mod-add-div' (x / 256) (256 ^ n),
      mod-add-div' x (256 ^ suc n),
    )

-- Reading back the bytes from `k` on of a number that has been stored.
load-store_from :
    (p w v : ℕ) (mem : Bytes) (n k : ℕ)
    → k + n ≤ w
    → load (store p w v mem) (p + k) n ≡ v / 256 ^ k % 256 ^ n
unfolding load store
load-store_from p w v mem zero k h = omega arith
load-store_from p w v mem (suc n) k h =
    let at : p + k - p ≡ k = omega arith in
    let inside : (leb p (p + k) && ltb (p + k) (p + w)) ≡ true = ground arith in
    let next : p + k + 1 ≡ p + suc k = omega arith in
    let higher : v / 256 ^ suc k ≡ v / 256 ^ k / 256 =
      ap (λ d. v / d) (pow-suc 256 k) ∙ sym (div-div-eq-div-mul v (256 ^ k) 256) in
    rw (inside, at, next, load-store_from p w v mem n (suc k) (omega arith), higher)
      (ap (λ b. b + 256 * (v / 256 ^ k / 256 % 256 ^ n)) (twice (v / 256 ^ k))
        ∙ split_byte (v / 256 ^ k) n)
  where
    twice : (x : ℕ) → x % 256 % 256 ≡ x % 256
    twice x = omega arith

pub load-store : (p w v : ℕ) (mem : Bytes) → load (store p w v mem) p w ≡ v % 256 ^ w
load-store p w v mem =
    let here : p + 0 ≡ p = omega arith in
    let whole : v / 256 ^ 0 ≡ v = omega arith in
    sym (ap (λ q. load (store p w v mem) q w) here)
    ∙ load-store_from p w v mem w 0 (omega arith)
    ∙ ap (λ x. x % 256 ^ w) whole

pub load-lt : (mem : Bytes) (p n : ℕ) → load mem p n < 256 ^ n
unfolding load
load-lt mem p zero = omega arith
load-lt mem p (suc n) = omega (arith, pow-succ' 256 n, load-lt mem (p + 1) n)
