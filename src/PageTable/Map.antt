-- ===== src/PageTable/Map.antt =====
-- What mapping an address does to the tables, and the write that goes astray.
use Prim.Native.Nat.{bit_or}
use dunkos.Common.{ℕ, ◌+◌, ◌%◌, ◌≡◌, refl, arith, false}
use dunkos.Common.{◌==◌, if◌then◌else◌, update, ==-refl}
use dunkos.PageTable.Defs.{Words, entry, pml4_offset, pdp_offset, pgd_offset, table_of}
use dunkos.PageTable.Defs.{pml4_compute_ptloc, pml4_map_address}
use dunkos.PageTable.Walk.{
  IsTableEntry, translate, translate-third, walk_lowest, entry_in, frame_of,
}
use dunkos.PageTable.Walk.{join_lem}
use dunkos.Common.{◌/◌, ◌^◌, ◌∙◌}
use dunkos.PageTable.Index.{offsets_lem}

-- The entries of the two upper tables on the way to an address.
abbrev pub first_entry : ℕ → ℕ → ℕ
first_entry pml4 addr = entry pml4 (pml4_offset addr)

abbrev pub second_entry : ℕ → ℕ → Words → ℕ
second_entry pml4 addr mem = entry (table_of (mem (first_entry pml4 addr))) (pdp_offset addr)

-- The place of the entry of `addr` is no entry on the way to `other`.
pub record IsApart (mem : Words) (pml4 addr other : ℕ) : Type 0 where
  pub first : (first_entry pml4 other == pml4_compute_ptloc pml4 addr mem) ≡ false
  pub second : (second_entry pml4 other mem == pml4_compute_ptloc pml4 addr mem) ≡ false

-- A write to the entry of `addr` leaves the way to `other`.
pub ptloc-update :
    (mem : Words) (pml4 addr other v : ℕ)
    → IsApart mem pml4 addr other
    → pml4_compute_ptloc pml4 other (update mem (pml4_compute_ptloc pml4 addr mem) v)
      ≡ pml4_compute_ptloc pml4 other mem
unfolding pml4_compute_ptloc
ptloc-update mem pml4 addr other v a = rw (a.first, a.second) refl

map_address_lem :
    (fresh pml4 addr frame : ℕ) (mem : Words)
    → (table_of (mem (first_entry pml4 addr)) == 0) ≡ false
    → pml4_map_address fresh pml4 addr frame mem
      ≡ update mem (pml4_compute_ptloc pml4 addr mem) (bit_or frame 3)
unfolding pml4_map_address pml4_compute_ptloc
map_address_lem fresh pml4 addr frame mem h = rw h refl

at_ptloc :
    (pml4 addr : ℕ) (mem : Words)
    → entry (table_of (mem (second_entry pml4 addr mem))) (pgd_offset addr)
      ≡ pml4_compute_ptloc pml4 addr mem
unfolding pml4_compute_ptloc
at_ptloc pml4 addr mem = refl

translate-update :
    (pml4 addr frame : ℕ) (mem : Words)
    → IsTableEntry (mem (first_entry pml4 addr))
    → IsTableEntry (mem (second_entry pml4 addr mem))
    → IsApart mem pml4 addr addr
    → frame % 4096 ≡ 0
    → let mem' = update mem (pml4_compute_ptloc pml4 addr mem) (frame + 3) in
      translate pml4 addr mem' ≡ walk_lowest (frame % 2 ^ 52) addr mem'
translate-update pml4 addr frame mem up down own aligned =
    let (i, d, g) = offsets_lem addr in
    let loc = pml4_compute_ptloc pml4 addr mem in
    let mem' = update mem loc (frame + 3) in
    let e₁ : entry_in pml4 39 addr mem' ≡ mem (first_entry pml4 addr) = rw (← i, own.first) refl in
    let e₂ : entry_in (table_of (mem (first_entry pml4 addr))) 30 addr mem'
        ≡ mem (second_entry pml4 addr mem) =
      rw (← d, own.second) refl in
    let e₃ : entry_in (table_of (mem (second_entry pml4 addr mem))) 21 addr mem' ≡ frame + 3 =
      rw (← g, at_ptloc pml4 addr mem, ==-refl loc) refl in
    let present : (frame + 3) % 2 ≡ 1 = omega (arith, aligned) in
    let small : (frame + 3) / 128 % 2 ≡ 0 = omega (arith, aligned) in
    let page : frame_of 12 (frame + 3) ≡ frame % 2 ^ 52 = omega (arith, aligned) in
    translate-third pml4 addr mem' (mem (first_entry pml4 addr)) (mem (second_entry pml4 addr mem))
      e₁ up e₂ down
    ∙ rw (e₃, present, small, page) refl

-- If the tables on the way to an address exist, pml4_map_address writes an entry without the page
-- size bit where it computes the place of the address, and the entries at other places stay. So the
-- processor takes the frame for a lowest table and goes on in the words that it holds. (Both
-- entries on the way are present, without the page size bit and below 2 ^ 52, the place is none of
-- the two upper entries of the two addresses, and the frame is the address of a page.)
pub map_address-translate :
    (fresh pml4 addr other frame : ℕ) (mem : Words)
    → IsTableEntry (mem (first_entry pml4 addr))
    → (table_of (mem (first_entry pml4 addr)) == 0) ≡ false
    → IsTableEntry (mem (second_entry pml4 addr mem))
    → IsApart mem pml4 addr addr
    → IsApart mem pml4 addr other
    → frame % 4096 ≡ 0
    → let mem' = pml4_map_address fresh pml4 addr frame mem in
      (translate pml4 addr mem' ≡ walk_lowest (frame % 2 ^ 52) addr mem')
      × (mem' (pml4_compute_ptloc pml4 other mem') ≡ (
          if pml4_compute_ptloc pml4 other mem == pml4_compute_ptloc pml4 addr mem
          then frame + 3
          else mem (pml4_compute_ptloc pml4 other mem)))
map_address-translate fresh pml4 addr other frame mem up some_table down own apart aligned =
    let loc = pml4_compute_ptloc pml4 addr mem in
    let joined = join_lem frame 3 aligned (omega arith) in
    rw
      (
        map_address_lem fresh pml4 addr frame mem some_table,
        ptloc-update mem pml4 addr other (bit_or frame 3) apart,
        joined,
      )
      (translate-update pml4 addr frame mem up down own aligned, refl)
