-- ===== src/Strings/Defs.antt =====
-- The functions of string.c and memsum.c. Memory gives the byte at each address.
use dunkos.Common.{
  ℕ, zero, suc, ◌+◌, ◌-◌, ◌/◌, ◌%◌, ◌^◌, Bool, true, false, not, ◌&&◌, Option, none, some,
}
use dunkos.Common.Int.{ℤ, pos, negsuc, ◌-ℤ◌, signed_char}
use dunkos.Common.{◌==◌, ltb, leb, if◌then◌else◌, update, word_limit}

abbrev pub Bytes : Type 0
Bytes = ℕ → ℕ

-- `while (*s++) result++;` on fuel; `none` is a run through all of it.
unfoldable pub strlen_loop : ℕ → Bytes → ℕ → ℕ → Option ℕ
strlen_loop zero mem s result = none
strlen_loop (suc fuel) mem s result = elim (mem s == 0) [
  | true ↦ some result
  | false ↦ strlen_loop fuel mem (s + 1) ((result + 1) % word_limit)
]

unfoldable pub strlen : ℕ → Bytes → ℕ → Option ℕ
unfolding strlen_loop
strlen fuel mem s = strlen_loop fuel mem s 0

-- `while ((c = *str) != chr) { str++; if (!c) return 0; } return str;`, for a byte `chr`
unfoldable pub strchr : ℕ → Bytes → ℕ → ℕ → Option ℕ
strchr zero mem str chr = none
strchr (suc fuel) mem str chr = elim (mem str == chr) [
  | true ↦ some str
  | false ↦ elim (mem str == 0) [ true ↦ some 0 | false ↦ strchr fuel mem (str + 1) chr ]
]

-- `while (n-- > 0) *pdest++ = *psrc++;`
unfoldable pub memcpy : Bytes → ℕ → ℕ → ℕ → Bytes
memcpy mem pdest psrc zero = mem
memcpy mem pdest psrc (suc n) = memcpy (update mem pdest (mem psrc)) (pdest + 1) (psrc + 1) n

-- `while (len-- > 0 && len % sizeof(size_t) > 0) *ptr++ = val;`: what is left of `len`, the pointer
-- behind the last byte written, and memory.
unfoldable pub memset_head : Bytes → ℕ → ℕ → ℕ → ℕ × ℕ × Bytes
memset_head mem ptr val zero = (word_limit - 1, ptr, mem)
memset_head mem ptr val (suc len) = elim (ltb 0 (len % 8)) [
  | true ↦ memset_head (update mem ptr (val % 256)) (ptr + 1) val len
  | false ↦ (len, ptr, mem)
]

-- `*wptr++ = wval.val` with `val` in each of the eight bytes
unfoldable pub store_word : Bytes → ℕ → ℕ → Bytes
store_word mem p val q = if leb p q && ltb q (p + 8) then val % 256 else mem q

-- `while (len > 0) { *wptr++ = wval.val; len -= sizeof *wptr; }` for a `len` that is a multiple of
-- eight, as it is after the first loop: `rounds` is `len / 8`.
unfoldable pub memset_words : Bytes → ℕ → ℕ → ℕ → Bytes
unfolding store_word
memset_words mem wptr val zero = mem
memset_words mem wptr val (suc rounds) =
    memset_words (store_word mem wptr val) (wptr + 8) val rounds

unfoldable pub memset : Bytes → ℕ → ℕ → ℕ → Bytes
unfolding memset_head memset_words
memset mem dest val len =
    let (rest, ptr, mem') = memset_head mem dest val len in
    if ltb 0 (len % 8)
    then memset_words mem' ptr val (rest / 8)
    else memset_words mem dest val (len / 8)

abbrev is_zero : ℤ → Bool
is_zero (pos n) = n == 0
is_zero (negsuc n) = false

-- `(int)count`
abbrev int_of : ℕ → ℤ
int_of n = let w = n % 2 ^ 32 in if ltb w (2 ^ 31) then pos w else negsuc (2 ^ 32 - 1 - w)

-- `while (cmp == 0 && *left && *right && count > 0)`, then the result.
unfoldable pub strncmp_loop : Bytes → ℤ → ℕ → ℕ → ℕ → ℤ
strncmp_loop mem cmp left right zero = if not (is_zero cmp) then cmp else int_of 0
strncmp_loop mem cmp left right (suc count) =
    elim (is_zero cmp && not (mem left == 0) && not (mem right == 0)) [
      | true ↦
          strncmp_loop mem (signed_char (mem left) -ℤ signed_char (mem right)) (left + 1)
            (right + 1) count
      | false ↦ if not (is_zero cmp) then cmp else int_of (suc count)
    ]

unfoldable pub strncmp : Bytes → ℕ → ℕ → ℕ → ℤ
unfolding strncmp_loop
strncmp mem left right count = strncmp_loop mem (pos 0) left right count

-- `while (n-- > 0) sum += *bptr++;`
unfoldable pub memsum_loop : Bytes → ℕ → ℕ → ℕ → ℕ
memsum_loop mem bptr sum zero = sum
memsum_loop mem bptr sum (suc n) = memsum_loop mem (bptr + 1) ((sum + mem bptr) % word_limit) n

unfoldable pub memsum : Bytes → ℕ → ℕ → ℕ
unfolding memsum_loop
memsum mem ptr n = memsum_loop mem ptr 0 n
