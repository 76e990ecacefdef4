-- ===== src/Filesys/Inode.antt =====
-- `struct inode_disk` and the loops over its extents. What block_read finds in a sector, as a table of
-- extents and as a table of sector numbers, is an argument; an action changes a state `aux` and no
-- extent, so writing a table back changes nothing.
use dunkos.Common.{ℕ, zero, suc, ◌+◌, ◌-◌, ◌%◌, ◌^◌, Bool, true, false, not, ◌&&◌, ◌||◌}
use dunkos.Common.{Option, none, some, ◌==◌, if◌then◌else◌}

abbrev pub inode_header_extents : ℕ
inode_header_extents = 59

abbrev pub inode_disk_npos : ℕ
inode_disk_npos = 2 ^ 32 - 1

abbrev pub inode_disk_extents : ℕ
inode_disk_extents = 64

abbrev pub inode_disk_indices : ℕ
inode_disk_indices = 128

pub record InodeExtent : Type 0 where
  pub start : ℕ
  pub sectors : ℕ

pub record InodeDisk : Type 0 where
  pub info : ℕ
  pub length : ℕ
  pub parent : ℕ
  pub next_extent : ℕ
  pub next_first_level : ℕ
  pub next_second_level : ℕ
  pub first_level_table : ℕ
  pub second_level_table : ℕ
  pub third_level_table : ℕ
  pub header_extents : ℕ → InodeExtent

unfoldable pub inode_disk_at_header : InodeDisk → Bool
inode_disk_at_header idisk = idisk.first_level_table == inode_disk_npos

unfoldable pub inode_disk_at_first_level : InodeDisk → Bool
inode_disk_at_first_level idisk =
    not (idisk.first_level_table == inode_disk_npos)
    && ((idisk.second_level_table == inode_disk_npos)
        && (idisk.third_level_table == inode_disk_npos))

unfoldable pub inode_disk_at_second_level : InodeDisk → Bool
inode_disk_at_second_level idisk =
    not (idisk.second_level_table == inode_disk_npos)
    && (idisk.third_level_table == inode_disk_npos)

unfoldable pub inode_disk_at_third_level : InodeDisk → Bool
inode_disk_at_third_level idisk = not (idisk.third_level_table == inode_disk_npos)

-- `n - 1` on a 32-bit number
abbrev pub pred32 : ℕ → ℕ
pred32 n = (n + (2 ^ 32 - 1)) % 2 ^ 32

-- The tables that sectors hold.
pub record Sectors : Type 0 where
  pub extents : ℕ → ℕ → InodeExtent
  pub indices : ℕ → ℕ → ℕ

-- What is done to each extent and each index table, and the condition of the loops; a `NULL` of
-- the source is the condition that always holds, and `none` for the tables.
pub record Actions {ℓ} (S : Type ℓ) : Type ℓ where
  pub exta : InodeExtent → S → S
  pub index_tablea : Option (ℕ → S → S)
  pub cond : S → Bool

module _ {ℓ} {S : Type ℓ} (a : Actions S) (disk : Sectors) where
  -- `for (; i < n && cond(aux); ++i) exta(extents + i, aux)`, with `left` rounds to go
  unfoldable pub extent_loop : ℕ → ℕ → (ℕ → InodeExtent) → S → S
  extent_loop zero i extents aux = aux
  extent_loop (suc left) i extents aux = elim (a.cond aux) [
    | true ↦ extent_loop left (i + 1) extents (a.exta (extents i) aux)
    | false ↦ aux
  ]

  abbrev pub index_action : ℕ → S → S
  index_action sector aux = elim (a.index_tablea) [ none ↦ aux | some f ↦ f sector aux ]

  -- `if (!ignore_indices && cond(aux)) index_tablea(sector, aux)`
  abbrev pub guarded_index_action : ℕ → S → S
  guarded_index_action sector aux = if a.cond aux then index_action sector aux else aux

  unfoldable pub inode_disk_foreach_header : InodeDisk → S → S
  unfolding extent_loop inode_disk_at_header
  inode_disk_foreach_header idisk aux =
      let num_extents =
        if not (inode_disk_at_header idisk) then inode_header_extents else idisk.next_extent in
      extent_loop num_extents 0 idisk.header_extents aux

  unfoldable pub inode_disk_foreach_first_level : InodeDisk → S → S
  unfolding inode_disk_foreach_header inode_disk_at_first_level
  inode_disk_foreach_first_level idisk aux =
      let num_extents =
        if not (inode_disk_at_first_level idisk) then inode_disk_extents else idisk.next_extent in
      extent_loop num_extents 0 (disk.extents idisk.first_level_table)
        (inode_disk_foreach_header idisk aux)

  -- The first loop of the second level, from table `i` on.
  unfoldable pub second_level_loop : ℕ → ℕ → (ℕ → ℕ) → S → S
  second_level_loop zero i indices aux = aux
  second_level_loop (suc left) i indices aux = elim (a.cond aux) [
    | true ↦
        second_level_loop left (i + 1) indices (
          extent_loop inode_disk_extents 0 (disk.extents (indices i))
            (index_action (indices i) aux))
    | false ↦ aux
  ]

  unfoldable pub inode_disk_foreach_second_level : InodeDisk → S → S
  unfolding inode_disk_foreach_first_level second_level_loop inode_disk_at_second_level
  inode_disk_foreach_second_level idisk aux₀ =
      let aux = inode_disk_foreach_first_level idisk aux₀ in
      let at_second_level = not (inode_disk_at_second_level idisk) in
      if not at_second_level || not (idisk.next_first_level == 0)
      then (let extent_blocks =
            if not at_second_level then inode_disk_indices else pred32 idisk.next_first_level in
          let aux' =
            second_level_loop extent_blocks 0 (disk.indices idisk.second_level_table) aux in
          if at_second_level
          then extent_loop idisk.next_extent 0 (disk.extents (pred32 idisk.next_first_level)) aux'
          else aux')
      else aux

  -- The loop over the tables of extents of one index table, from table `i` on.
  unfoldable pub first_index_loop : ℕ → ℕ → (ℕ → ℕ) → S → S
  first_index_loop zero i indices aux = aux
  first_index_loop (suc left) i indices aux = elim (a.cond aux) [
    | true ↦ first_index_loop left (i + 1) indices (
        guarded_index_action (indices i)
          (extent_loop inode_disk_extents 0 (disk.extents (indices i)) aux))
    | false ↦ aux
  ]

  -- The loop over the full index tables, from table `i` on.
  unfoldable pub second_index_loop : ℕ → ℕ → (ℕ → ℕ) → S → S
  unfolding first_index_loop
  second_index_loop zero i indices aux = aux
  second_index_loop (suc left) i indices aux = elim (a.cond aux) [
    | true ↦ second_index_loop left (i + 1) indices (
        guarded_index_action (indices i)
          (first_index_loop inode_disk_indices 0 (disk.indices (indices i)) aux))
    | false ↦ aux
  ]

  unfoldable pub inode_disk_foreach_third_level : InodeDisk → S → S
  unfolding inode_disk_foreach_second_level second_index_loop first_index_loop
  inode_disk_foreach_third_level idisk aux₀ =
      let aux = inode_disk_foreach_second_level idisk aux₀ in
      if not (idisk.next_second_level == 0)
      then (let snd = disk.indices idisk.third_level_table in
          let fst = disk.indices (snd (pred32 idisk.next_second_level)) in
          let last = fst (pred32 idisk.next_first_level) in
          extent_loop idisk.next_extent 0 (disk.extents last) (
            guarded_index_action last (
              first_index_loop (pred32 idisk.next_first_level) 0 fst
                (second_index_loop (pred32 idisk.next_second_level) 0 snd aux))))
      else aux

  -- The assertion before it always holds: if the inode is at neither of the last two levels, it is at
  -- the header or at the first one.
  unfoldable pub inode_disk_foreach : InodeDisk → S → S
  unfolding inode_disk_at_header inode_disk_at_first_level inode_disk_at_second_level
      inode_disk_at_third_level inode_disk_foreach_third_level
  inode_disk_foreach idisk aux =
      if inode_disk_at_header idisk
      then inode_disk_foreach_header idisk aux
      else if inode_disk_at_first_level idisk
      then inode_disk_foreach_first_level idisk aux
      else if inode_disk_at_second_level idisk
      then inode_disk_foreach_second_level idisk aux
      else if inode_disk_at_third_level idisk
      then inode_disk_foreach_third_level idisk aux
      else aux
