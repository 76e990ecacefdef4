-- ===== src/PageTable/Index.antt =====
-- The fields of a virtual address and of an entry.
use Prim.Native.Nat.{bit_or}
use dunkos.Common.{ℕ, ◌+◌, ◌-◌, ◌*◌, ◌/◌, ◌%◌, ◌^◌, ◌<◌, ◌≡◌, arith, word_limit}
use dunkos.Common.Bits.Masks.{bit_and-shifted, bit_and-ones, bit_or-disjoint}
use dunkos.PageTable.Defs.{pml4_offset, pdp_offset, pgd_offset, table_of}

-- The three indices are the fields of nine bits above bit 39, 30 and 21, as the processor takes them.
pub offsets_lem :
    (addr : ℕ)
    → (pml4_offset addr ≡ addr / 2 ^ 39 % 512)
      × (pdp_offset addr ≡ addr / 2 ^ 30 % 512)
      × (pgd_offset addr ≡ addr / 2 ^ 21 % 512)
unfolding pml4_offset pdp_offset pgd_offset
offsets_lem addr = (
  omega (arith, bit_and-shifted 39 addr 511, bit_and-ones 9 (addr / 2 ^ 39)),
  omega (arith, bit_and-shifted 30 addr 511, bit_and-ones 9 (addr / 2 ^ 30)),
  omega (arith, bit_and-shifted 21 addr 511, bit_and-ones 9 (addr / 2 ^ 21)),
)

pub table_of_lem : (e : ℕ) → e < word_limit → table_of e ≡ e / 4096 * 4096
unfolding table_of
table_of_lem e h = omega (arith, bit_and-shifted 12 e (2 ^ 52 - 1), bit_and-ones 52 (e / 2 ^ 12))

-- An entry leads to the table that was joined with flags in it.
pub table_of-join :
    (table flags : ℕ)
    → table % 4096 ≡ 0
    → table < word_limit
    → flags < 4096
    → table_of (bit_or table flags) ≡ table
table_of-join table flags aligned small low =
    let page = table / 4096 in
    let shape : table ≡ page * 2 ^ 12 = omega arith in
    let joined : bit_or table flags ≡ table + flags =
      rw shape (bit_or-disjoint 12 page flags (omega arith)) in
    rw joined (omega (arith, table_of_lem (table + flags) (omega arith)))

pub offsets-lt :
    (addr : ℕ) → (pml4_offset addr < 512) × (pdp_offset addr < 512) × (pgd_offset addr < 512)
offsets-lt addr =
    let (i, d, g) = offsets_lem addr in (omega (arith, i), omega (arith, d), omega (arith, g))
