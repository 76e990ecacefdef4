-- ===== src/Filesys/Space.antt =====
-- The free map, new inodes and open inodes. `ide` are the transfers of sectors, and `tables` is what
-- the sectors hold as tables. `stale` is what is on the stack where inode_offset keeps its result.
use dunkos.Common.Memory.{store, zeroed}
use dunkos.Common.{ℕ, zero, suc, ◌+◌, ◌-◌, ◌%◌, ◌^◌, Bool, true, false, not, ◌||◌}
use dunkos.Common.{Option, none, some, ◌==◌, ltb, leb, if◌then◌else◌, word_limit}
use dunkos.Strings.{Bytes}
use dunkos.Bitmap.{bitmap_npos, bitmap_size, bitmap_all, bitmap_set, bitmap_scan_and_flip}
use dunkos.Bitmap.{div_rnd_up}
use dunkos.Hashtable.{hashtable_find, hashtable_insert}
use dunkos.Block.{Ide, block_write}
use dunkos.Filesys.Inode.{InodeExtent, inode_disk_npos}
use dunkos.Filesys.State.{Fs, Inode, ◌>>=◌, ensure, acquire_free_map, release_free_map}
use dunkos.Filesys.State.{acquire_inode_map, release_inode_map, set_inode}
use dunkos.Filesys.State.{inode_of, inode_callbacks, set_memory, set_world}

unfoldable pub free_map_allocate : ℕ → Fs → Option (ℕ × Fs)
unfolding bitmap_size bitmap_scan_and_flip
free_map_allocate sectors s₀ = do
  s₁ ← acquire_free_map s₀
  s ← ensure (ltb sectors (bitmap_size s₁.misread_map)) s₁
  let (sector, map) = bitmap_scan_and_flip s.misread_map 0 sectors false
  some (sector, release_free_map (record s { misread_map = map }))

unfoldable pub free_map_release : ℕ → ℕ → Fs → Option Fs
unfolding bitmap_all bitmap_set
free_map_release at sectors s₀ = do
  s₁ ← acquire_free_map s₀
  s ← ensure (bitmap_all s₁.misread_map at sectors true) s₁
  some (release_free_map (record s { misread_map = bitmap_set s.misread_map at sectors false }))

-- The function is empty.
unfoldable pub inode_disk_insert_extent : ℕ → InodeExtent → Fs → Fs
inode_disk_insert_extent idisk ext s = s

-- The inner loop: the first sector found, and how many there are. Behind an attempt at no sector
-- comes one at `(size_t)-1`, which fails the assertion.
unfoldable pub best_attempt : ℕ → Fs → Option (ℕ × ℕ × Fs)
unfolding free_map_allocate
best_attempt zero s₀ = do
  (start, s) ← free_map_allocate 0 s₀
  if start == bitmap_npos then none else some (start, 0, s)
best_attempt (suc bestattempt) s₀ = do
  (start, s) ← free_map_allocate (suc bestattempt) s₀
  elim (start == bitmap_npos) [
    | true ↦ best_attempt bestattempt s
    | false ↦ some (start, suc bestattempt, s)
  ]

-- The outer loop, on fuel: each round takes a sector or more, so `sectors` rounds are enough. A round
-- that finds no sector is repeated for ever.
unfoldable pub allocate_loop : ℕ → ℕ → ℕ → Fs → Option Fs
unfolding best_attempt inode_disk_insert_extent
allocate_loop zero idisk sectors s = if sectors == 0 then some s else none
allocate_loop (suc fuel) idisk sectors s₀ = elim (sectors == 0) [
  | true ↦ some s₀
  | false ↦ do
    (start, bestattempt, s) ← best_attempt sectors s₀
    let ext : InodeExtent = record { start = start % 2 ^ 32; sectors = bestattempt % 2 ^ 32 }
    if bestattempt == 0
        then none
        else allocate_loop fuel idisk (sectors - bestattempt) (inode_disk_insert_extent idisk ext s)
]

-- On success the lock is released before the loop and behind it.
unfoldable pub inode_disk_allocate_space : ℕ → ℕ → Fs → Option (Bool × Fs)
unfolding allocate_loop
inode_disk_allocate_space idisk sectors s₀ = do
  s ← acquire_free_map s₀
  if leb sectors s.fs_free_sectors
      then (do
        s' ← allocate_loop sectors idisk sectors (release_free_map s)
        some (true, release_free_map s'))
      else some (false, release_free_map s)

-- The stores to the zeroed `*idisk`.
unfoldable pub fresh_inode_disk : ℕ → ℕ → Bytes → Bytes
unfolding store zeroed
fresh_inode_disk idisk info mem = store (idisk + 36) 4 inode_disk_npos (
    store (idisk + 32) 4 inode_disk_npos (
      store (idisk + 28) 4 inode_disk_npos (
        store (idisk + 24) 4 inode_disk_npos (
          store (idisk + 20) 4 inode_disk_npos
            (store (idisk + 16) 4 0 (store idisk 8 info (zeroed idisk 512 mem)))))))

-- The `if (success)` of create_inode for a header that was found: the header's sector on success.
-- `idisk` is what `kcalloc` returns.
unfoldable pub write_inode : Ide → ℕ → ℕ → ℕ → ℕ → Fs → Option (Option ℕ × Fs)
unfolding fresh_inode_disk inode_disk_allocate_space block_write
write_inode ide idisk sectors info header s₁ =
    if header == bitmap_npos || idisk == 0 then some (none, s₁) else do
      let s₂ = set_memory (fresh_inode_disk idisk info s₁.world.memory) s₁
      (found, s₃) ←
          (if sectors == 0 then some (true, s₂) else inode_disk_allocate_space idisk sectors s₂)
      if not found then some (none, s₃) else do
        let (written, w) = block_write ide s₃.fs_block idisk header 512 s₃.world
        some (if written == 512 then some header else none, set_world w s₃)

unfoldable pub create_inode : Ide → ℕ → ℕ → ℕ → Fs → Option (Option ℕ × Fs)
unfolding div_rnd_up free_map_allocate write_inode
create_inode ide idisk size info s₀ = do
  (header, s₁) ← free_map_allocate 1 s₀
  write_inode ide idisk (div_rnd_up size 512) info header s₁

-- `key` is the address of the local inode. A sector that is not in the map gives the address that is
-- 8 bytes before `NULL`.
unfoldable pub get_inode : ℕ → ℕ → Fs → Option (ℕ × Fs)
unfolding hashtable_find inode_of
get_inode key sector s₀ = do
  s ← acquire_inode_map s₀
  let with_key = (set_inode key (record (s.inodes key) { sector = sector }) s).inodes
  let inode_el = hashtable_find (inode_callbacks with_key s) (key + 8) s.links
  some (inode_of inode_el, release_inode_map s)

-- `fresh` is the zeroed inode that `kcalloc` returns, if it is called.
unfoldable pub open_inode : Ide → ℕ → ℕ → ℕ → Fs → Option (ℕ × Fs)
unfolding bitmap_size bitmap_all get_inode hashtable_insert
open_inode ide fresh key sector s₀ = do
  s₁ ← acquire_free_map s₀
  s₂ ← ensure (ltb sector (bitmap_size s₁.misread_map)) s₁
  s₃ ← ensure (bitmap_all s₂.fs_free_map sector 1 true) s₂
  s₄ ← acquire_inode_map (release_free_map s₃)
  (node, s₅) ← get_inode key sector s₄
  if node == 0
      then (do
        let data_at = (s₅.inodes fresh).inode_data
        let w = ide.ide_read_sectors (sector % 2 ^ 32) 1 data_at s₅.world
        let new : Inode = record {
          sector = sector;
          lock = 1;
          dir_lock = 1;
          open_count = 1;
          removed = false;
          inode_data = data_at;
        }
        let s₆ = set_inode fresh new (set_world w s₅)
        let (map, links) = hashtable_insert (inode_callbacks s₆.inodes s₆) (fresh + 8) s₆.links
        some (fresh, release_inode_map (record s₆ { inode_map = map; links = links })))
      else (do
        let i = s₅.inodes node
        let opened = record i { open_count = (i.open_count + 1) % word_limit }
        some (node, release_inode_map (set_inode node opened s₅)))
