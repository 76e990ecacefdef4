-- ===== src/Bitmap/Defs.antt =====
-- The operations of bitmap.c. The words behind the header are a function of the word index.
use Prim.Native.Nat.{bit_and, bit_or, bit_xor, max}
use dunkos.Common.{ℕ, zero, suc, ◌+◌, ◌-◌, ◌/◌, ◌%◌, ◌^◌, Bool, true, false, not, ◌&&◌}
use dunkos.Common.{◌==◌, ltb, if◌then◌else◌, update, word_limit}

pub record Bitmap : Type 0 where
  pub bitcount : ℕ
  pub bufsize : ℕ
  pub elems : ℕ → ℕ

-- `BITMAP_NPOS`, `(size_t)-1`
abbrev pub bitmap_npos : ℕ
bitmap_npos = word_limit - 1

-- `ELEM_BITS`
abbrev pub elem_bits : ℕ
elem_bits = 64

-- `div_rnd_up(n, d)`; the sums here stay far below the word limit
unfoldable pub div_rnd_up : ℕ → ℕ → ℕ
div_rnd_up n d = (n + d - 1) / d

unfoldable pub bitmap_bufsize : ℕ → ℕ
unfolding div_rnd_up
bitmap_bufsize bits = div_rnd_up bits 8

unfoldable pub bit_to_elem : ℕ → ℕ
bit_to_elem bit_index = bit_index / elem_bits

unfoldable pub bitmap_elem : Bitmap → ℕ → ℕ
unfolding bit_to_elem
bitmap_elem b bit_index = b.elems (bit_to_elem bit_index)

unfoldable pub bitmap_mask : ℕ → ℕ
bitmap_mask bit_index = 2 ^ (bit_index % elem_bits)

-- `*elem_ptr = v` for the word of a bit
unfoldable pub store_elem : Bitmap → ℕ → ℕ → Bitmap
unfolding bit_to_elem
store_elem b bit_index v = record b { elems = update b.elems (bit_to_elem bit_index) v }

-- A zeroed block from `kmalloc`, given the header.
unfoldable pub bitmap_create : ℕ → Bitmap
unfolding bitmap_bufsize
bitmap_create bits = record { bitcount = bits; bufsize = bitmap_bufsize bits; elems = λ _. 0 }

-- The buffer keeps whatever words it holds.
unfoldable pub bitmap_create_buffer : ℕ → (ℕ → ℕ) → ℕ → Bitmap
bitmap_create_buffer bits words size = record { bitcount = bits; bufsize = size; elems = words }

unfoldable pub bitmap_size : Bitmap → ℕ
bitmap_size b = b.bitcount

unfoldable pub bitmap_test : Bitmap → ℕ → Bool
unfolding bitmap_elem bitmap_mask
bitmap_test b bit_index = not (bit_and (bitmap_elem b bit_index) (bitmap_mask bit_index) == 0)

-- One round of `bitmap_set`: `orq` with the mask, or `andq` with its complement.
unfoldable pub set_one : Bitmap → ℕ → Bool → Bitmap
unfolding bitmap_elem bitmap_mask store_elem
set_one bm start b =
    let elem = bitmap_elem bm start in
    let mask = bitmap_mask start in
    store_elem bm start (if b then bit_or elem mask else bit_and elem (word_limit - 1 - mask))

-- `while (start < bm->bitcount && nbits-- > 0)`
unfoldable pub bitmap_set : Bitmap → ℕ → ℕ → Bool → Bitmap
unfolding set_one
bitmap_set bm start zero b = bm
bitmap_set bm start (suc nbits) b = elim (ltb start bm.bitcount) [
  | true ↦ bitmap_set (set_one bm start b) (start + 1) nbits b
  | false ↦ bm
]

-- One round of `bitmap_flip`: `xorq` with the mask.
unfoldable pub flip_one : Bitmap → ℕ → Bitmap
unfolding bitmap_elem bitmap_mask store_elem
flip_one bm start = store_elem bm start (bit_xor (bitmap_elem bm start) (bitmap_mask start))

unfoldable pub bitmap_flip : Bitmap → ℕ → ℕ → Bitmap
unfolding flip_one
bitmap_flip bm start zero = bm
bitmap_flip bm start (suc nbits) = elim (ltb start bm.bitcount) [
  | true ↦ bitmap_flip (flip_one bm start) (start + 1) nbits
  | false ↦ bm
]

-- C's `==` on two truth values
abbrev pub eqb : Bool → Bool → Bool
eqb true b = b
eqb false b = not b

-- The inner loop of `bitmap_scan`; `left` is `nbits - bits_scanned`, so its test is `left > 0`.
unfoldable pub count_run : Bitmap → ℕ → ℕ → Bool → ℕ → ℕ
unfolding bitmap_test
count_run bm start zero b bits_scanned = bits_scanned
count_run bm start (suc left) b bits_scanned =
    elim (ltb (start + bits_scanned) bm.bitcount && eqb (bitmap_test bm (start + bits_scanned)) b) [
      | true ↦ count_run bm start left b (bits_scanned + 1)
      | false ↦ bits_scanned
    ]

-- The outer loop, on fuel. Each round moves `start` on, so `bitcount` rounds are enough.
unfoldable pub scan_loop : Bitmap → ℕ → ℕ → ℕ → Bool → ℕ
unfolding count_run
scan_loop bm zero start nbits b = bitmap_npos
scan_loop bm (suc fuel) start nbits b =
    let bits_scanned = count_run bm start nbits b 0 in
    elim (ltb start bm.bitcount) [
      | true ↦ elim (bits_scanned == nbits) [
        | true ↦ start
        | false ↦ scan_loop bm fuel (start + max bits_scanned 1) nbits b
      ]
      | false ↦ bitmap_npos
    ]

unfoldable pub bitmap_scan : Bitmap → ℕ → ℕ → Bool → ℕ
unfolding scan_loop
bitmap_scan bm start nbits b = scan_loop bm bm.bitcount start nbits b

unfoldable pub bitmap_scan_and_flip : Bitmap → ℕ → ℕ → Bool → ℕ × Bitmap
unfolding bitmap_scan bitmap_flip
bitmap_scan_and_flip bm start nbits b =
    let index = bitmap_scan bm start nbits b in
    (index, if not (index == bitmap_npos) then bitmap_flip bm index nbits else bm)

unfoldable pub bitmap_all : Bitmap → ℕ → ℕ → Bool → Bool
unfolding bitmap_scan
bitmap_all bm start nbits b = bitmap_scan bm start nbits b == start
