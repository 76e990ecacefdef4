-- ===== src/Strings/Copy.antt =====
-- memcpy and memset, byte by byte.
use dunkos.Common.{ℕ, zero, suc, ◌+◌, ◌-◌, ◌*◌, ◌/◌, ◌%◌, ◌≤◌, ◌<◌, ◌≡◌, ◌⊎◌, inl, inr, arith}
use dunkos.Common.{◌&&◌, ◌==◌, ltb, leb, if◌then◌else◌, Bool-cases, update}
use dunkos.Strings.Defs.{Bytes, memcpy, memset_head, memset_words, store_word, memset}

-- Between areas that do not overlap, memcpy copies `n` bytes and changes no other byte.
pub memcpy_lem :
    (mem : Bytes) (dest src n q : ℕ)
    → (dest + n ≤ src) ⊎ (src + n ≤ dest)
    → memcpy mem dest src n q
      ≡ (if leb dest q && ltb q (dest + n) then mem (src + (q - dest)) else mem q)
unfolding memcpy
memcpy_lem mem dest src zero q h = ground arith
memcpy_lem mem dest src (suc n) q h =
    ground (arith, memcpy_lem (update mem dest (mem src)) (dest + 1) (src + 1) n q, shift)
  where
    shift : dest + 1 ≤ q → src + 1 + (q - (dest + 1)) ≡ src + (q - dest)
    shift lt = omega arith

memset_words_lem :
    (mem : Bytes) (p v rounds q : ℕ)
    → memset_words mem p v rounds q ≡ (if leb p q && ltb q (p + 8 * rounds) then v % 256 else mem q)
unfolding memset_words store_word
memset_words_lem mem p v zero q = ground arith
memset_words_lem mem p v (suc rounds) q =
    ground (arith, memset_words_lem (store_word mem p v) (p + 8) v rounds q)

-- The first loop of memset, for a length that is no multiple of eight, writes one byte less than the
-- remainder and takes all of the remainder off the length.
memset_head_lem :
    (mem : Bytes) (p v len q : ℕ)
    → 0 < len % 8
    → let (rest, ptr, mem') = memset_head mem p v len in
      (rest ≡ len - len % 8)
      × (ptr + 1 ≡ p + len % 8)
      × (mem' q ≡ (if leb p q && ltb (q + 1) (p + len % 8) then v % 256 else mem q))
unfolding memset_head
memset_head_lem mem p v zero q h = absurd (ground arith)
memset_head_lem mem p v (suc len) q h = elim (Bool-cases (ltb 0 (len % 8))) [
  | inl e ↦
      let (rest, ptr, byte) =
        memset_head_lem (update mem p (v % 256)) (p + 1) v len q (ground arith) in
      rw (e, memset_head) (omega (arith, rest), omega (arith, ptr), ground (arith, byte))
  | inr e ↦ rw (e, memset_head) (ground arith, ground arith, ground arith)
]

-- memset writes the value to the first `len` bytes if `len` is a multiple of eight, and else to all
-- of them but the last; it changes no other byte.
pub memset_lem :
    (mem : Bytes) (dest v len q : ℕ)
    → memset mem dest v len q ≡ (
        if leb dest q && ltb q (dest + (if len % 8 == 0 then len else len - 1))
        then v % 256
        else mem q)
unfolding memset
memset_lem mem dest v len q = elim (Bool-cases (ltb 0 (len % 8))) [
  | inl e ↦
      let (rest, ptr, byte) = memset_head_lem mem dest v len q (ground arith) in
      let (left, p, mem') = memset_head mem dest v len in
      rw e (ground (arith, rest, ptr, byte, memset_words_lem mem' p v (left / 8) q))
  | inr e ↦ rw e (ground (arith, memset_words_lem mem dest v (len / 8) q))
]
