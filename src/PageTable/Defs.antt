-- ===== src/PageTable/Defs.antt =====
-- The functions of pml4.c. Memory gives the word at each address that is a multiple of 8. The tables
-- hold physical addresses and the code reads them as they are; the block at a kernel address and at
-- its physical address is the same, so an address stands for the physical one here, and the block
-- that `kcalloc` returns is named by its physical address.
use Prim.Native.Nat.{bit_and, bit_or}
use dunkos.Common.{ℕ, zero, suc, ◌+◌, ◌-◌, ◌*◌, ◌/◌, ◌^◌, Bool, not, ◌&&◌}
use dunkos.Common.{List, [], ◌∷◌, ◌==◌, leb, ltb, if◌then◌else◌, update, word_limit}

abbrev pub Words : Type 0
Words = ℕ → ℕ

abbrev pub pml4_pgsize : ℕ
pml4_pgsize = 128

abbrev pub pml4_dirty : ℕ
pml4_dirty = 64

abbrev pub pml4_accessed : ℕ
pml4_accessed = 32

abbrev pub pml4_writable : ℕ
pml4_writable = 2

abbrev pub pml4_present : ℕ
pml4_present = 1

-- `table[i]` lies here
abbrev pub entry : ℕ → ℕ → ℕ
entry table i = table + 8 * i

unfoldable pub pml4_offset : ℕ → ℕ
pml4_offset addr = bit_and addr 0xFF8000000000 / 2 ^ 39

unfoldable pub pdp_offset : ℕ → ℕ
pdp_offset addr = bit_and addr 0x7FC0000000 / 2 ^ 30

unfoldable pub pgd_offset : ℕ → ℕ
pgd_offset addr = bit_and addr 0x3FE00000 / 2 ^ 21

-- `e & ~0xFFF`
unfoldable pub table_of : ℕ → ℕ
table_of e = bit_and e (word_limit - 0x1000)

-- The zeroed block of `kcalloc(512, sizeof(size_t))` at `p`.
unfoldable pub clear_table : ℕ → Words → Words
clear_table p mem q = if leb p q && ltb q (p + 4096) then 0 else mem q

-- The state of the file: `base_pt_pool` and memory.
pub record Tables : Type 0 where
  pub base_pt_pool : ℕ
  pub mem : Words

-- One of the two `if (... == NULL)` blocks: the table that entry `at` leads to, taken off the pool if
-- there is none.
unfoldable pub pool_table : ℕ → Tables → ℕ × Tables
unfolding table_of
pool_table at t =
    let table = table_of (t.mem at) in
    if table == 0
    then (
      t.base_pt_pool,
      record {
        base_pt_pool = t.base_pt_pool + 4096;
        mem = update t.mem at (bit_or t.base_pt_pool (bit_or pml4_writable pml4_present));
      },
    )
    else (table, t)

unfoldable pub pml4_map_address_buffer : ℕ → ℕ → ℕ → Tables → Tables
unfolding pml4_offset pdp_offset pgd_offset pool_table
pml4_map_address_buffer pml4 addr frame t =
    let (pdp, t₁) = pool_table (entry pml4 (pml4_offset addr)) t in
    let (pgd, t₂) = pool_table (entry pdp (pdp_offset addr)) t₁ in
    record t₂ {
      mem =
          update t₂.mem (entry pgd (pgd_offset addr))
            (bit_or frame (bit_or pml4_pgsize (bit_or pml4_writable pml4_present)));
    }

-- `fresh` is the physical address of the block that `kcalloc` returns, if it is called. The second
-- test is on `pdp` again, which is not `NULL` there.
unfoldable pub pml4_map_address : ℕ → ℕ → ℕ → ℕ → Words → Words
unfolding pml4_offset pdp_offset pgd_offset table_of clear_table
pml4_map_address fresh pml4 addr frame mem =
    let at = entry pml4 (pml4_offset addr) in
    let old = table_of (mem at) in
    let pdp = if old == 0 then fresh else old in
    let mem₁ =
      if old == 0
      then update (clear_table fresh mem) at (bit_or fresh (bit_or pml4_writable pml4_present))
      else mem in
    let pgd = table_of (mem₁ (entry pdp (pdp_offset addr))) in
    update mem₁ (entry pgd (pgd_offset addr)) (bit_or frame (bit_or pml4_writable pml4_present))

unfoldable pub pml4_compute_ptloc : ℕ → ℕ → Words → ℕ
unfolding pml4_offset pdp_offset pgd_offset table_of
pml4_compute_ptloc pml4 addr mem =
    let pdp = table_of (mem (entry pml4 (pml4_offset addr))) in
    let pgd = table_of (mem (entry pdp (pdp_offset addr))) in entry pgd (pgd_offset addr)

unfoldable pub pml4_clear_mapping : ℕ → ℕ → Words → Words
unfolding pml4_compute_ptloc
pml4_clear_mapping pml4 addr mem = update mem (pml4_compute_ptloc pml4 addr mem) 0

-- `pml4_set(pml4, addr, cond, value)`; `~(value)` is taken on an `int` and widened.
unfoldable pub pml4_set : ℕ → ℕ → Bool → ℕ → Words → Words
unfolding pml4_compute_ptloc
pml4_set pml4 addr cond value mem =
    let at = pml4_compute_ptloc pml4 addr mem in
    update mem at
      (if cond then bit_or (mem at) value else bit_and (mem at) (word_limit - 1 - value))

unfoldable pub pml4_set_writable : ℕ → ℕ → Bool → Words → Words
unfolding pml4_set
pml4_set_writable pml4 addr writable mem = pml4_set pml4 addr writable pml4_writable mem

unfoldable pub pml4_set_accessed : ℕ → ℕ → Bool → Words → Words
unfolding pml4_set
pml4_set_accessed pml4 addr accessed mem = pml4_set pml4 addr accessed pml4_accessed mem

unfoldable pub pml4_set_dirty : ℕ → ℕ → Bool → Words → Words
unfolding pml4_set
pml4_set_dirty pml4 addr dirty mem = pml4_set pml4 addr dirty pml4_dirty mem

-- `pml4_get(pml4, addr, test)`
unfoldable pub pml4_get : ℕ → ℕ → ℕ → Words → Bool
unfolding pml4_compute_ptloc
pml4_get pml4 addr test mem = not (bit_and (mem (pml4_compute_ptloc pml4 addr mem)) test == 0)

unfoldable pub pml4_is_writable : ℕ → ℕ → Words → Bool
unfolding pml4_get
pml4_is_writable pml4 addr mem = pml4_get pml4 addr pml4_writable mem

unfoldable pub pml4_is_accessed : ℕ → ℕ → Words → Bool
unfolding pml4_get
pml4_is_accessed pml4 addr mem = pml4_get pml4 addr pml4_accessed mem

unfoldable pub pml4_is_dirty : ℕ → ℕ → Words → Bool
unfolding pml4_get
pml4_is_dirty pml4 addr mem = pml4_get pml4 addr pml4_dirty mem

-- What a copied entry becomes: `(target & ~0xFFF) | ((e & 0xFFD) | writable)`.
unfoldable pub copied_entry : ℕ → ℕ → Bool → ℕ
copied_entry target e cow = bit_or target (bit_or (bit_and e 0xFFD) (if cow then 0 else 2))

-- The second loop of `_pml_copy`, from entry `i` on: the lowest tables.
unfoldable pub copy_entries : ℕ → ℕ → ℕ → ℕ → Bool → Words → Words
unfolding copied_entry table_of
copy_entries zero i dest src cow mem = mem
copy_entries (suc left) i dest src cow mem =
    let e = mem (entry src i) in
    copy_entries left (i + 1) dest src cow
      (update mem (entry dest i) (copied_entry (table_of e) e cow))

-- `heap` is the list of the blocks that `kcalloc` is still going to return.
pub record Copying : Type 0 where
  pub heap : List ℕ
  pub mem : Words

-- `kcalloc(512, sizeof *pml)`; with no block left it returns `NULL`.
unfoldable pub take_table : Copying → ℕ × Copying
unfolding clear_table
take_table c = elim (c.heap) [
  | [] ↦ (0, c)
  | p ∷ rest ↦ (p, record { heap = rest; mem = clear_table p c.mem })
]

-- `_pml_copy` above level 2 and on it: `levels` is `level - 2`. The first loop, from entry `i` on,
-- hands each table to the level below, which is `below`.
unfoldable pub copy_tables : (ℕ → ℕ → Copying → Copying) → ℕ → ℕ → ℕ → ℕ → Bool → Copying → Copying
unfolding copied_entry table_of take_table
copy_tables below zero i dest src cow c = c
copy_tables below (suc left) i dest src cow c =
    let e = c.mem (entry src i) in
    copy_tables below left (i + 1) dest src cow (
      if not (table_of e == 0)
      then (let (pml, c₁) = take_table c in
          let c₂ = below pml (table_of e) c₁ in
          record c₂ { mem = update c₂.mem (entry dest i) (copied_entry pml e cow) })
      else c)

unfoldable pub pml_copy : ℕ → ℕ → ℕ → Bool → Copying → Copying
unfolding copy_tables copy_entries
pml_copy zero dest src cow c = record c { mem = copy_entries 512 0 dest src cow c.mem }
pml_copy (suc levels) dest src cow c =
    copy_tables (λ pml table. pml_copy levels pml table cow) 512 0 dest src cow c

unfoldable pub pml4_copy : ℕ → ℕ → Bool → Copying → Copying
unfolding pml_copy
pml4_copy dest_pml4 src_pml4 cow c = pml_copy 2 dest_pml4 src_pml4 cow c
