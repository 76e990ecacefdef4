-- ===== src/Filesys/Offset.antt =====
-- What the empty action makes of inode_offset.
use dunkos.Common.{ℕ, zero, suc, ◌+◌, ◌≡◌, refl, ap, ◌∙◌, arith}
use dunkos.Common.{Bool, true, false, none, ◌==◌, if◌then◌else◌}
use dunkos.Common.{Bool-cases, inl, inr}
use dunkos.Filesys.Inode.{InodeExtent, InodeDisk, Sectors, Actions, extent_loop, second_level_loop}
use dunkos.Filesys.Inode.{inode_disk_foreach_header}
use dunkos.Filesys.Inode.{inode_disk_foreach_first_level, inode_disk_foreach_second_level}
use dunkos.Filesys.Inode.{inode_disk_foreach, inode_disk_npos, first_index_loop, second_index_loop}
use dunkos.Filesys.Inode.{inode_disk_foreach_third_level, pred32}
use dunkos.Filesys.Access.{calcuate_offset, continue_calculating, inode_offset}

-- An equation between a value that a test chooses and another.
if_either {ℓ} : {S : Type ℓ} {x y z : S} (b : Bool) → x ≡ z → y ≡ z → (if b then x else y) ≡ z
if_either true e f = e
if_either false e f = f

module _ (result : ℕ) (disk : Sectors) where
  abbrev calculating : Actions ℕ
  calculating = record { exta = calcuate_offset; index_tablea = none; cond = continue_calculating }

  extent_loop-same :
      (left i : ℕ) (extents : ℕ → InodeExtent)
      → extent_loop calculating disk left i extents result ≡ result
  unfolding extent_loop calcuate_offset continue_calculating
  extent_loop-same zero i extents = refl
  extent_loop-same (suc left) i extents = ground (arith, extent_loop-same left (i + 1) extents)

  second_level_loop-same :
      (left i : ℕ) (indices : ℕ → ℕ)
      → second_level_loop calculating disk left i indices result ≡ result
  unfolding second_level_loop continue_calculating
  second_level_loop-same zero i indices = refl
  second_level_loop-same (suc left) i indices = elim (Bool-cases (result == inode_disk_npos)) [
    | inl e ↦
        rw (e, second_level_loop)
          (ap (second_level_loop calculating disk left (i + 1) indices)
              (extent_loop-same 64 0 (disk.extents (indices i)))
            ∙ second_level_loop-same left (i + 1) indices)
    | inr e ↦ rw (e, second_level_loop) refl
  ]

  first_index_loop-same :
      (left i : ℕ) (indices : ℕ → ℕ)
      → first_index_loop calculating disk left i indices result ≡ result
  unfolding first_index_loop continue_calculating
  first_index_loop-same zero i indices = refl
  first_index_loop-same (suc left) i indices = elim (Bool-cases (result == inode_disk_npos)) [
    | inl e ↦
        rw (e, first_index_loop)
          (ap (first_index_loop calculating disk left (i + 1) indices) (
              if_either _ (extent_loop-same 64 0 (disk.extents (indices i)))
                (extent_loop-same 64 0 (disk.extents (indices i))))
            ∙ first_index_loop-same left (i + 1) indices)
    | inr e ↦ rw (e, first_index_loop) refl
  ]

  second_index_loop-same :
      (left i : ℕ) (indices : ℕ → ℕ)
      → second_index_loop calculating disk left i indices result ≡ result
  unfolding second_index_loop continue_calculating
  second_index_loop-same zero i indices = refl
  second_index_loop-same (suc left) i indices = elim (Bool-cases (result == inode_disk_npos)) [
    | inl e ↦
        rw (e, second_index_loop)
          (ap (second_index_loop calculating disk left (i + 1) indices) (
              if_either _ (first_index_loop-same 128 0 (disk.indices (indices i)))
                (first_index_loop-same 128 0 (disk.indices (indices i))))
            ∙ second_index_loop-same left (i + 1) indices)
    | inr e ↦ rw (e, second_index_loop) refl
  ]

  header-same :
      (idisk : InodeDisk) → inode_disk_foreach_header calculating disk idisk result ≡ result
  unfolding inode_disk_foreach_header
  header-same idisk = extent_loop-same _ 0 idisk.header_extents

  first_level-same :
      (idisk : InodeDisk) → inode_disk_foreach_first_level calculating disk idisk result ≡ result
  unfolding inode_disk_foreach_first_level
  first_level-same idisk =
      rw (header-same idisk) (extent_loop-same _ 0 (disk.extents idisk.first_level_table))

  second_level-same :
      (idisk : InodeDisk) → inode_disk_foreach_second_level calculating disk idisk result ≡ result
  unfolding inode_disk_foreach_second_level
  second_level-same idisk =
      let indices = disk.indices idisk.second_level_table in
      let last = disk.extents (pred32 idisk.next_first_level) in
      let tables : (n : ℕ)
          → second_level_loop calculating disk n 0 indices
              (inode_disk_foreach_first_level calculating disk idisk result)
            ≡ result =
        λ n.
          ap (second_level_loop calculating disk n 0 indices) (first_level-same idisk)
          ∙ second_level_loop-same n 0 indices in
      if_either _
        (if_either _
          (ap (extent_loop calculating disk idisk.next_extent 0 last) (tables _)
            ∙ extent_loop-same idisk.next_extent 0 last)
          (tables _))
        (first_level-same idisk)

  third_level-same :
      (idisk : InodeDisk) → inode_disk_foreach_third_level calculating disk idisk result ≡ result
  unfolding inode_disk_foreach_third_level
  third_level-same idisk =
      let snd = disk.indices idisk.third_level_table in
      let fst = disk.indices (snd (pred32 idisk.next_second_level)) in
      let n = pred32 idisk.next_first_level in
      let last = disk.extents (fst n) in
      if_either _
        (ap (extent_loop calculating disk idisk.next_extent 0 last) (
            if_either _
              (ap (first_index_loop calculating disk n 0 fst) (
                  ap (second_index_loop calculating disk (pred32 idisk.next_second_level) 0 snd)
                    (second_level-same idisk)
                  ∙ second_index_loop-same (pred32 idisk.next_second_level) 0 snd)
                ∙ first_index_loop-same n 0 fst)
              (ap (first_index_loop calculating disk n 0 fst) (
                  ap (second_index_loop calculating disk (pred32 idisk.next_second_level) 0 snd)
                    (second_level-same idisk)
                  ∙ second_index_loop-same (pred32 idisk.next_second_level) 0 snd)
                ∙ first_index_loop-same n 0 fst))
          ∙ extent_loop-same idisk.next_extent 0 last)
        (second_level-same idisk)

-- inode_offset returns what happens to be on the stack, for every inode and every offset: the loops
-- end, and none of them sets the result.
pub inode_offset-stale :
    (disk : Sectors) (stale : ℕ) (idisk : InodeDisk) (off : ℕ)
    → inode_offset disk stale idisk off ≡ stale
unfolding inode_offset inode_disk_foreach
inode_offset-stale disk stale idisk off = if_either _ (header-same stale disk idisk) (
    if_either _ (first_level-same stale disk idisk) (
      if_either _ (second_level-same stale disk idisk)
        (if_either _ (third_level-same stale disk idisk) refl)))
