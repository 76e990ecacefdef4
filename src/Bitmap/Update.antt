-- ===== src/Bitmap/Update.antt =====
-- bitmap_set and bitmap_flip, bit by bit.
use Prim.Native.Nat.{bit_and, bit_or, bit_xor}
use dunkos.Common.{ℕ, zero, suc, ◌+◌, ◌-◌, ◌/◌, ◌%◌, ◌^◌, ◌<◌, ◌≡◌, refl, arith}
use dunkos.Common.{Bool, true, false, not, ◌&&◌, ◌==◌, ltb, leb, if◌then◌else◌, Bool-cases}
use dunkos.Common.{inl, inr, ◌∙◌}
use mathlib.Core.Bool.{xor}
use native.Mathlib.Nat.{pow-le-pow_right}
use dunkos.Common.Bits.{test_bit, test_bit-and, test_bit-or, test_bit-xor, test_bit-pow}
use dunkos.Common.Bits.{test_bit-complement, bit_and-pow}
use dunkos.Bitmap.Defs.{Bitmap, bitmap_test, set_one, bitmap_set, flip_one, bitmap_flip, store_elem}
use dunkos.Bitmap.Defs.{bitmap_create}

-- The code's test reads the bit.
test-test_bit : (bm : Bitmap) (i : ℕ) → bitmap_test bm i ≡ test_bit (bm.elems (i / 64)) (i % 64)
unfolding bitmap_test
test-test_bit bm i = ground (arith, bit_and-pow (i % 64) (bm.elems (i / 64)))

store_elem_lem :
    (bm : Bitmap) (s v i : ℕ)
    → bitmap_test (store_elem bm s v) i
      ≡ test_bit (if i / 64 == s / 64 then v else bm.elems (i / 64)) (i % 64)
unfolding store_elem
store_elem_lem bm s v i = test-test_bit (store_elem bm s v) i

mask-lt : (k : ℕ) → k < 64 → 2 ^ k < 2 ^ 64
mask-lt k h = omega (arith, pow-le-pow_right {n = 2} (omega arith) {i = k} {j = 63} (omega arith))

set_one_lem :
    (bm : Bitmap) (s : ℕ) (b : Bool) (i : ℕ)
    → bitmap_test (set_one bm s b) i ≡ (if i == s then b else bitmap_test bm i)
unfolding set_one
set_one_lem bm s true i =
    rw (store_elem_lem bm s (bit_or (bm.elems (s / 64)) (2 ^ (s % 64))) i, test-test_bit bm i)
      (ground (
        arith,
        test_bit-or (i % 64) (bm.elems (s / 64)) (2 ^ (s % 64)),
        test_bit-pow (i % 64) (s % 64),
      ))
set_one_lem bm s false i =
    rw
      (
        store_elem_lem bm s (bit_and (bm.elems (s / 64)) (2 ^ 64 - 1 - 2 ^ (s % 64))) i,
        test-test_bit bm i,
      )
      (ground (
        arith,
        test_bit-and (i % 64) (bm.elems (s / 64)) (2 ^ 64 - 1 - 2 ^ (s % 64)),
        test_bit-complement 64 (i % 64) (2 ^ (s % 64)) (omega arith)
            (mask-lt (s % 64) (omega arith)),
        test_bit-pow (i % 64) (s % 64),
      ))

flip_one_lem :
    (bm : Bitmap) (s i : ℕ)
    → bitmap_test (flip_one bm s) i ≡ (if i == s then not (bitmap_test bm i) else bitmap_test bm i)
unfolding flip_one xor
flip_one_lem bm s i =
    rw (store_elem_lem bm s (bit_xor (bm.elems (s / 64)) (2 ^ (s % 64))) i, test-test_bit bm i)
      (ground (
        arith,
        test_bit-xor (i % 64) (bm.elems (s / 64)) (2 ^ (s % 64)),
        test_bit-pow (i % 64) (s % 64),
      ))

set_one-bitcount : (bm : Bitmap) (s : ℕ) (b : Bool) → (set_one bm s b).bitcount ≡ bm.bitcount
unfolding set_one
set_one-bitcount bm s b = refl

flip_one-bitcount : (bm : Bitmap) (s : ℕ) → (flip_one bm s).bitcount ≡ bm.bitcount
unfolding flip_one
flip_one-bitcount bm s = refl

-- Index `i` lies in `[start, start + nbits)` and in the bitmap.
abbrev pub in_range : Bitmap → ℕ → ℕ → ℕ → Bool
in_range bm start nbits i = leb start i && ltb i (start + nbits) && ltb i bm.bitcount

-- bitmap_set writes `b` at every bit of the range that lies in the bitmap, and at no other bit.
pub test-set :
    (bm : Bitmap) (start nbits : ℕ) (b : Bool) (i : ℕ)
    → bitmap_test (bitmap_set bm start nbits b) i
      ≡ (if in_range bm start nbits i then b else bitmap_test bm i)
unfolding bitmap_set
test-set bm start zero b i = ground arith
test-set bm start (suc nbits) b i = elim (Bool-cases (ltb start bm.bitcount)) [
  | inl e ↦
      rw (e, bitmap_set)
        (ground (
          arith,
          test-set (set_one bm start b) (start + 1) nbits b i,
          set_one_lem bm start b i,
          set_one-bitcount bm start b,
        ))
  | inr e ↦ rw (e, bitmap_set) (ground arith)
]

-- bitmap_flip negates every bit of the range that lies in the bitmap, and no other bit.
pub test-flip :
    (bm : Bitmap) (start nbits i : ℕ)
    → bitmap_test (bitmap_flip bm start nbits) i
      ≡ (if in_range bm start nbits i then not (bitmap_test bm i) else bitmap_test bm i)
unfolding bitmap_flip
test-flip bm start zero i = ground arith
test-flip bm start (suc nbits) i = elim (Bool-cases (ltb start bm.bitcount)) [
  | inl e ↦
      rw (e, bitmap_flip)
        (ground (
          arith,
          test-flip (flip_one bm start) (start + 1) nbits i,
          flip_one_lem bm start i,
          flip_one-bitcount bm start,
        ))
  | inr e ↦ rw (e, bitmap_flip) (ground arith)
]

pub flip-bitcount :
    (bm : Bitmap) (start nbits : ℕ) → (bitmap_flip bm start nbits).bitcount ≡ bm.bitcount
unfolding bitmap_flip
flip-bitcount bm start zero = refl
flip-bitcount bm start (suc nbits) =
    ground (arith, flip-bitcount (flip_one bm start) (start + 1) nbits, flip_one-bitcount bm start)

pub set-bitcount :
    (bm : Bitmap) (start nbits : ℕ) (b : Bool)
    → (bitmap_set bm start nbits b).bitcount ≡ bm.bitcount
unfolding bitmap_set
set-bitcount bm start zero b = refl
set-bitcount bm start (suc nbits) b =
    ground
      (arith, set-bitcount (set_one bm start b) (start + 1) nbits b, set_one-bitcount bm start b)

zero_bit : (k : ℕ) → test_bit 0 k ≡ false
unfolding test_bit
zero_bit zero = refl
zero_bit (suc k) = zero_bit k

-- A new bitmap has no bit set.
pub test-create : (bits i : ℕ) → bitmap_test (bitmap_create bits) i ≡ false
unfolding bitmap_create
test-create bits i = test-test_bit (bitmap_create bits) i ∙ zero_bit (i % 64)
