-- ===== src/PageTable/Walk.antt =====
-- How the processor translates an address with four levels of tables: an entry without its lowest bit
-- ends the walk, one with bit 7 at the second or third level is a page of 1 GiB or 2 MiB, and any other
-- names the next table in its bits 12 to 51. What code may do with the page plays no part.
use Prim.Native.Nat.{bit_or}
use dunkos.Common.{ℕ, ◌+◌, ◌*◌, ◌/◌, ◌%◌, ◌^◌, ◌<◌, ◌≡◌, refl, ap, arith, Bool, Option, none, some}
use dunkos.Common.{◌==◌, if◌then◌else◌}
use dunkos.Common.Bits.Masks.{bit_or-disjoint}
use dunkos.PageTable.Defs.{Words, entry, table_of}
use dunkos.PageTable.Index.{table_of_lem}

abbrev pub is_present : ℕ → Bool
is_present e = e % 2 == 1

abbrev pub is_large : ℕ → Bool
is_large e = e / 128 % 2 == 1

-- The `2 ^ shift` bytes that an entry names.
abbrev pub frame_of : ℕ → ℕ → ℕ
frame_of shift e = e % 2 ^ 52 / 2 ^ shift * 2 ^ shift

-- The entry of an address in the table at `table`, whose entries each stand for `2 ^ shift` bytes.
abbrev pub entry_in : ℕ → ℕ → ℕ → Words → ℕ
entry_in table shift addr mem = mem (entry table (addr / 2 ^ shift % 512))

-- The walk from a lowest table on.
abbrev pub walk_lowest : ℕ → ℕ → Words → Option ℕ
walk_lowest table addr mem =
    let e = entry_in table 12 addr mem in
    if is_present e then some (frame_of 12 e + addr % 2 ^ 12) else none

abbrev pub walk_third : ℕ → ℕ → Words → Option ℕ
walk_third table addr mem =
    let e = entry_in table 21 addr mem in
    if is_present e
    then (if is_large e
        then some (frame_of 21 e + addr % 2 ^ 21)
        else walk_lowest (frame_of 12 e) addr mem)
    else none

abbrev pub walk_second : ℕ → ℕ → Words → Option ℕ
walk_second table addr mem =
    let e = entry_in table 30 addr mem in
    if is_present e
    then (if is_large e
        then some (frame_of 30 e + addr % 2 ^ 30)
        else walk_third (frame_of 12 e) addr mem)
    else none

-- The physical address of `addr`; `none` is a page fault.
unfoldable pub translate : ℕ → ℕ → Words → Option ℕ
translate pml4 addr mem =
    let e = entry_in pml4 39 addr mem in
    if is_present e then walk_second (frame_of 12 e) addr mem else none

-- An entry that leads the processor to the table that the code reads in it.
pub record IsTableEntry (e : ℕ) : Type 0 where
  pub present : e % 2 ≡ 1
  pub small : e / 128 % 2 ≡ 0
  pub low : e < 2 ^ 52

pub frame_of-table : (e : ℕ) → IsTableEntry e → frame_of 12 e ≡ table_of e
frame_of-table e t = omega (arith, table_of_lem e (omega (arith, t.low)), t.low)

pub join_lem :
    (frame flags : ℕ) → frame % 4096 ≡ 0 → flags < 4096 → bit_or frame flags ≡ frame + flags
join_lem frame flags aligned few =
    let page = frame / 4096 in
    omega (arith, aligned, bit_or-disjoint 12 page flags few, shaped frame flags aligned)
  where
    shaped : (f g : ℕ) → f % 4096 ≡ 0 → bit_or f g ≡ bit_or (f / 4096 * 2 ^ 12) g
    shaped f g h = let same : f ≡ f / 4096 * 2 ^ 12 = omega (arith, h) in ap (λ x. bit_or x g) same

-- The entries that pml4.c makes for a table.
pub join-IsTableEntry :
    (table : ℕ) → table % 4096 ≡ 0 → table < 2 ^ 52 → IsTableEntry (bit_or table 3)
join-IsTableEntry table aligned low =
    let joined = join_lem table 3 aligned (omega arith) in
    record {
      present = omega (arith, joined, aligned);
      small = omega (arith, joined, aligned);
      low = omega (arith, joined, aligned, low);
    }

-- The walk to the third table goes the way of the code.
pub translate-third :
    (pml4 addr : ℕ) (mem : Words) (e₁ e₂ : ℕ)
    → entry_in pml4 39 addr mem ≡ e₁
    → IsTableEntry e₁
    → entry_in (table_of e₁) 30 addr mem ≡ e₂
    → IsTableEntry e₂
    → translate pml4 addr mem ≡ walk_third (table_of e₂) addr mem
unfolding translate
translate-third pml4 addr mem e₁ e₂ at₁ t₁ at₂ t₂ =
    let up = frame_of-table e₁ t₁ in
    let down = frame_of-table e₂ t₂ in
    rw (at₁, t₁.present, up, at₂, t₂.present, t₂.small, down) refl
