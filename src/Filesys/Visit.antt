-- ===== src/Filesys/Visit.antt =====
-- Which extents the loops over an inode visit.
use dunkos.Common.{ℕ, zero, suc, ◌+◌, ◌≡◌, refl, ap, sym, ◌∙◌, arith}
use dunkos.Common.{Bool, true, false, not, none, if◌then◌else◌}
use dunkos.Common.{List, [], ◌∷◌, ◌++◌}
use dunkos.Filesys.Inode.{InodeExtent, InodeDisk, Sectors, Actions, extent_loop, second_level_loop}
use dunkos.Filesys.Inode.{
  inode_disk_at_header, inode_disk_at_first_level, inode_disk_at_second_level,
}
use dunkos.Filesys.Inode.{inode_disk_at_third_level, inode_disk_foreach_header}
use dunkos.Filesys.Inode.{inode_disk_foreach_first_level, inode_disk_foreach_second_level}
use dunkos.Filesys.Inode.{inode_disk_foreach}

-- The extents of a table from `i` on.
unfoldable pub extents_from : ℕ → ℕ → (ℕ → InodeExtent) → List InodeExtent
extents_from zero i extents = []
extents_from (suc left) i extents = extents i ∷ extents_from left (i + 1) extents

-- The extents of the tables that an index names from `i` on.
unfoldable pub tables_from : Sectors → ℕ → ℕ → (ℕ → ℕ) → List InodeExtent
unfolding extents_from
tables_from disk zero i indices = []
tables_from disk (suc left) i indices =
    extents_from 64 0 (disk.extents (indices i)) ++ tables_from disk left (i + 1) indices

unfoldable pub header_extents_of : InodeDisk → List InodeExtent
unfolding extents_from inode_disk_at_header
header_extents_of idisk =
    extents_from (if not (inode_disk_at_header idisk) then 59 else idisk.next_extent) 0
      idisk.header_extents

unfoldable pub first_level_extents_of : Sectors → InodeDisk → List InodeExtent
unfolding extents_from inode_disk_at_first_level
first_level_extents_of disk idisk =
    extents_from (if not (inode_disk_at_first_level idisk) then 64 else idisk.next_extent) 0
      (disk.extents idisk.first_level_table)

-- The extents of an inode below the third level. On the second level they are all extents of all
-- tables of the index, up to its last.
unfoldable pub visited : Sectors → InodeDisk → List InodeExtent
unfolding header_extents_of first_level_extents_of tables_from inode_disk_at_header
    inode_disk_at_first_level
visited disk idisk =
    if inode_disk_at_header idisk
    then header_extents_of idisk
    else if inode_disk_at_first_level idisk
    then header_extents_of idisk ++ first_level_extents_of disk idisk
    else (header_extents_of idisk ++ first_level_extents_of disk idisk)
      ++ tables_from disk 128 0 (disk.indices idisk.second_level_table)

at_second_level :
    (idisk : InodeDisk)
    → inode_disk_at_header idisk ≡ false
    → inode_disk_at_first_level idisk ≡ false
    → inode_disk_at_third_level idisk ≡ false
    → inode_disk_at_second_level idisk ≡ true
unfolding inode_disk_at_header inode_disk_at_first_level inode_disk_at_second_level
    inode_disk_at_third_level
at_second_level idisk h f t = ground arith

unfoldable pub visit_all {ℓ} : {S : Type ℓ} → (InodeExtent → S → S) → List InodeExtent → S → S
visit_all exta [] aux = aux
visit_all exta (e ∷ es) aux = visit_all exta es (exta e aux)

visit_all-append {ℓ} :
    {S : Type ℓ} (exta : InodeExtent → S → S) (xs ys : List InodeExtent) (aux : S)
    → visit_all exta (xs ++ ys) aux ≡ visit_all exta ys (visit_all exta xs aux)
unfolding visit_all
visit_all-append exta [] ys aux = refl
visit_all-append exta (e ∷ xs) ys aux = visit_all-append exta xs ys (exta e aux)

-- Equations between values that a test chooses.
if_true {ℓ} : {S : Type ℓ} {x : S} (b : Bool) (y : S) → b ≡ true → (if b then x else y) ≡ x
if_true true y e = refl
if_true false y e = absurd (ground (arith, e))

module _ {ℓ} {S : Type ℓ} (exta : InodeExtent → S → S) (disk : Sectors) where
  -- The action on every extent, with no condition and no action on the tables.
  abbrev pub plainly : Actions S
  plainly = record { exta = exta; index_tablea = none; cond = λ _. true }

  visit_if :
      {x y : S} (b : Bool) (aux : S) (xs ys : List InodeExtent)
      → (b ≡ true → x ≡ visit_all exta xs aux)
      → (b ≡ false → y ≡ visit_all exta ys aux)
      → (if b then x else y) ≡ visit_all exta (if b then xs else ys) aux
  visit_if true aux xs ys f g = f refl
  visit_if false aux xs ys f g = g refl

  extent_loop_lem :
      (left i : ℕ) (extents : ℕ → InodeExtent) (aux : S)
      → extent_loop plainly disk left i extents aux
        ≡ visit_all exta (extents_from left i extents) aux
  unfolding extent_loop extents_from visit_all
  extent_loop_lem zero i extents aux = refl
  extent_loop_lem (suc left) i extents aux =
      extent_loop_lem left (i + 1) extents (exta (extents i) aux)

  second_level_loop_lem :
      (left i : ℕ) (indices : ℕ → ℕ) (aux : S)
      → second_level_loop plainly disk left i indices aux
        ≡ visit_all exta (tables_from disk left i indices) aux
  unfolding second_level_loop tables_from visit_all
  second_level_loop_lem zero i indices aux = refl
  second_level_loop_lem (suc left) i indices aux =
      let here = extents_from 64 0 (disk.extents (indices i)) in
      rw (extent_loop_lem 64 0 (disk.extents (indices i)) aux) (
        second_level_loop_lem left (i + 1) indices (visit_all exta here aux)
        ∙ sym (visit_all-append exta here (tables_from disk left (i + 1) indices) aux))

  header_lem :
      (idisk : InodeDisk) (aux : S)
      → inode_disk_foreach_header plainly disk idisk aux
        ≡ visit_all exta (header_extents_of idisk) aux
  unfolding inode_disk_foreach_header header_extents_of
  header_lem idisk aux = extent_loop_lem _ 0 idisk.header_extents aux

  first_level_lem :
      (idisk : InodeDisk) (aux : S)
      → inode_disk_foreach_first_level plainly disk idisk aux
        ≡ visit_all exta (header_extents_of idisk ++ first_level_extents_of disk idisk) aux
  unfolding inode_disk_foreach_first_level first_level_extents_of
  first_level_lem idisk aux =
      let header = header_extents_of idisk in
      extent_loop_lem _ 0 (disk.extents idisk.first_level_table) _
      ∙ ap (visit_all exta (first_level_extents_of disk idisk)) (header_lem idisk aux)
      ∙ sym (visit_all-append exta header (first_level_extents_of disk idisk) aux)

  second_level_lem :
      (idisk : InodeDisk) (aux : S)
      → inode_disk_at_second_level idisk ≡ true
      → inode_disk_foreach_second_level plainly disk idisk aux
        ≡ visit_all exta
            ((header_extents_of idisk ++ first_level_extents_of disk idisk)
              ++ tables_from disk 128 0 (disk.indices idisk.second_level_table))
            aux
  unfolding inode_disk_foreach_second_level
  second_level_lem idisk aux at =
      let indices = disk.indices idisk.second_level_table in
      let before = header_extents_of idisk ++ first_level_extents_of disk idisk in
      rw at (
        second_level_loop_lem 128 0 indices _
        ∙ ap (visit_all exta (tables_from disk 128 0 indices)) (first_level_lem idisk aux)
        ∙ sym (visit_all-append exta before (tables_from disk 128 0 indices) aux))

-- An action without a condition is done to the header's extents, then to those of the first table,
-- and on the second level to all extents of all 128 tables that the index has room for, in this
-- order, whatever the length of the file: the number of tables in use is not looked at. (The inode
-- is not on the third level.)
pub foreach-visits {ℓ} :
    {S : Type ℓ} (exta : InodeExtent → S → S) (disk : Sectors) (idisk : InodeDisk) (aux : S)
    → inode_disk_at_third_level idisk ≡ false
    → inode_disk_foreach (plainly exta disk) disk idisk aux
      ≡ visit_all exta (visited disk idisk) aux
unfolding inode_disk_foreach visited
foreach-visits exta disk idisk aux below =
    visit_if exta disk (inode_disk_at_header idisk) aux _ _ (λ h. header_lem exta disk idisk aux)
      (λ h.
        visit_if exta disk (inode_disk_at_first_level idisk) aux _ _
          (λ f. first_level_lem exta disk idisk aux)
          (λ f.
            let at = at_second_level idisk h f below in
            if_true (inode_disk_at_second_level idisk) _ at
            ∙ second_level_lem exta disk idisk aux at))
