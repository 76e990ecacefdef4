-- ===== src/Filesys/Access.antt =====
-- Reading, writing and closing an open inode. `ide` are the transfers of sectors, `tables` is what the
-- sectors hold as tables, and `stale` what is on the stack where inode_offset keeps its result.
use dunkos.Common.{ℕ, ◌-◌, ◌%◌, ◌+◌, Bool, true, Option, none, some, ◌==◌}
use dunkos.Common.{if◌then◌else◌, word_limit}
use dunkos.Bitmap.{bitmap_all}
use dunkos.Hashtable.{hashtable_remove}
use dunkos.Block.{Ide, block_read, block_write}
use dunkos.Filesys.Inode.{
  InodeExtent, InodeDisk, Sectors, Actions, inode_disk_foreach, inode_disk_npos,
}
use dunkos.Filesys.State.{Fs, ◌>>=◌, ensure, acquire_free_map, release_free_map}
use dunkos.Filesys.State.{
  acquire_inode_map, release_inode_map, acquire_inode, release_inode, set_inode,
}
use dunkos.Filesys.State.{inode_callbacks, set_world, load_inode_disk}
use dunkos.Filesys.Space.{free_map_release}

unfoldable pub inode_extent_free : InodeExtent → Fs → Option Fs
unfolding bitmap_all free_map_release
inode_extent_free ext s₀ = do
  s₁ ← acquire_free_map s₀
  s ← ensure (bitmap_all s₁.misread_map ext.start ext.sectors true) s₁
  free_map_release ext.start ext.sectors (release_free_map s)

unfoldable pub inode_free_data : Sectors → InodeDisk → Fs → Option Fs
unfolding inode_disk_foreach inode_extent_free
inode_free_data tables node s =
    let free : Actions (Option Fs) = record {
      exta = λ ext s'. s' >>= inode_extent_free ext;
      index_tablea = none;
      cond = λ _. true;
    } in
    inode_disk_foreach free tables node (some s)

-- The function is empty; `result` is all that the condition reads.
unfoldable pub calcuate_offset : InodeExtent → ℕ → ℕ
calcuate_offset ext result = result

unfoldable pub continue_calculating : ℕ → Bool
continue_calculating result = result == inode_disk_npos

unfoldable pub inode_offset : Sectors → ℕ → InodeDisk → ℕ → ℕ
unfolding inode_disk_foreach calcuate_offset continue_calculating
inode_offset tables stale inode off =
    let calculate : Actions ℕ = record {
      exta = calcuate_offset;
      index_tablea = none;
      cond = continue_calculating;
    } in
    inode_disk_foreach calculate tables inode stale

unfoldable pub inode_read_at : Ide → Sectors → ℕ → ℕ → ℕ → ℕ → ℕ → Fs → Option (ℕ × Fs)
unfolding inode_offset block_read
inode_read_at ide tables stale inode dest at count s₀ = do
  s₁ ← acquire_inode inode s₀
  let disk_inode = load_inode_disk s₁.world.memory (s₁.inodes inode).inode_data
  let ofs = inode_offset tables stale disk_inode at
  let s = release_inode inode s₁
  let (bytes, w) = block_read ide s.fs_block dest ofs count s.world
  some (bytes, set_world w s)

unfoldable pub inode_write_at : Ide → Sectors → ℕ → ℕ → ℕ → ℕ → ℕ → Fs → Option (ℕ × Fs)
unfolding inode_offset block_write
inode_write_at ide tables stale inode src at count s₀ = do
  s₁ ← acquire_inode inode s₀
  let disk_inode = load_inode_disk s₁.world.memory (s₁.inodes inode).inode_data
  let ofs = inode_offset tables stale disk_inode at
  let s = release_inode inode s₁
  let (bytes, w) = block_write ide s.fs_block src ofs count s.world
  some (bytes, set_world w s)

-- What becomes of the data of an inode that nobody holds open any more. The call passes the inode
-- itself, and so its first bytes, for the structure on disk.
unfoldable pub settle_inode : Ide → Sectors → ℕ → Fs → Option Fs
unfolding inode_free_data block_write
settle_inode ide tables node s =
    let i = s.inodes node in
    let (written, w) = block_write ide s.fs_block i.inode_data i.sector 512 s.world in
    if i.removed
    then inode_free_data tables (load_inode_disk s.world.memory node) s
    else some (set_world w s)

unfoldable pub inode_close : Ide → Sectors → ℕ → Fs → Option Fs
unfolding settle_inode hashtable_remove
inode_close ide tables node s₀ = do
  s₁ ← acquire_inode_map s₀
  s₂ ← acquire_inode node s₁
  let i = s₂.inodes node
  let open_count = (i.open_count + (word_limit - 1)) % word_limit
  let s₃ = set_inode node (record i { open_count = open_count }) s₂
  if open_count == 0
      then (do
        s₄ ← settle_inode ide tables node s₃
        let (map, links) = hashtable_remove (inode_callbacks s₄.inodes s₄) (node + 8) s₄.links
        some (release_inode_map (record s₄ { inode_map = map; links = links })))
      else some (release_inode_map (release_inode node s₃))
