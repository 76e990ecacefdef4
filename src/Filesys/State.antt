-- ===== src/Filesys/State.antt =====
-- The state of filesys.c: its variables, the open inodes, and memory and the disk. A lock is the value
-- of its semaphore. An operation returns `none` where an assertion fails or where it waits for ever,
-- with no other thread to wake it.
use dunkos.Common.Memory.{load}
use dunkos.Common.{ℕ, ◌+◌, ◌-◌, ◌*◌, ◌%◌, Bool, true, Option, none, some}
use dunkos.Common.{◌==◌, if◌then◌else◌, word_limit}
use dunkos.LinkedList.{Mem}
use dunkos.Hashtable.{Hashtable, hashtable_init}
use dunkos.Bitmap.{Bitmap, bitmap_create, bitmap_set}
use dunkos.Fdtable.{hash_uint64}
use dunkos.Strings.{Bytes}
use dunkos.Block.{World, Block, block_size}
use dunkos.Filesys.Inode.{InodeDisk}

infixl 5 ◌>>=◌
abbrev pub ◌>>=◌ {ℓ κ} : {A : Type ℓ} {B : Type κ} → Option A → (A → Option B) → Option B
none >>= f = none
some a >>= f = f a

-- A `struct inode`; `inode_data` is the address of its `struct inode_disk`.
pub record Inode : Type 0 where
  pub sector : ℕ
  pub lock : ℕ
  pub dir_lock : ℕ
  pub open_count : ℕ
  pub removed : Bool
  pub inode_data : ℕ

-- The bitmap `*fs_free_map`, and what the bytes from the variable `fs_free_map` on are as a bitmap,
-- which most calls pass.
-- That bitmap stands by itself here: in the program its words are those of the variables behind
-- `fs_free_map`, the locks and the map of the inodes, which a change of its bits may change.
pub record Fs : Type 0 where
  pub fs_block : Block
  pub fs_free_sectors : ℕ
  pub fs_free_map : Bitmap
  pub misread_map : Bitmap
  pub fs_free_map_lock : ℕ
  pub inode_map_lock : ℕ
  pub inode_map : Hashtable
  pub links : Mem
  pub inodes : ℕ → Inode
  pub world : World

-- `assert(c)`
abbrev pub ensure : Bool → Fs → Option Fs
ensure c s = if c then some s else none

abbrev pub acquire_free_map : Fs → Option Fs
acquire_free_map s =
    if s.fs_free_map_lock == 0
    then none
    else some (record s { fs_free_map_lock = s.fs_free_map_lock - 1 })

abbrev pub release_free_map : Fs → Fs
release_free_map s = record s { fs_free_map_lock = s.fs_free_map_lock + 1 }

abbrev pub acquire_inode_map : Fs → Option Fs
acquire_inode_map s =
    if s.inode_map_lock == 0
    then none
    else some (record s { inode_map_lock = s.inode_map_lock - 1 })

abbrev pub release_inode_map : Fs → Fs
release_inode_map s = record s { inode_map_lock = s.inode_map_lock + 1 }

abbrev pub set_inode : ℕ → Inode → Fs → Fs
set_inode a node s = record s { inodes = λ q. if q == a then node else s.inodes q }

abbrev pub acquire_inode : ℕ → Fs → Option Fs
acquire_inode a s =
    if (s.inodes a).lock == 0
    then none
    else some (set_inode a (record (s.inodes a) { lock = (s.inodes a).lock - 1 }) s)

abbrev pub release_inode : ℕ → Fs → Fs
release_inode a s = set_inode a (record (s.inodes a) { lock = (s.inodes a).lock + 1 }) s

-- `elem_value(el, struct inode, inode_map_elem)`: the element is 8 bytes into the inode.
unfoldable pub inode_of : ℕ → ℕ
inode_of el = (el + (word_limit - 8)) % word_limit

unfoldable pub hash_inode : (ℕ → Inode) → ℕ → ℕ
unfolding inode_of hash_uint64
hash_inode inodes el = hash_uint64 (inodes (inode_of el)).sector

unfoldable pub inode_equal : (ℕ → Inode) → ℕ → ℕ → Bool
unfolding inode_of
inode_equal inodes left right = (inodes (inode_of left)).sector == (inodes (inode_of right)).sector

-- The callbacks read the inodes as they are when the map is used.
abbrev pub inode_callbacks : (ℕ → Inode) → Fs → Hashtable
inode_callbacks inodes s = record (s.inode_map) { fn = hash_inode inodes; eq = inode_equal inodes }

-- The `struct inode_disk` at an address.
unfoldable pub load_inode_disk : Bytes → ℕ → InodeDisk
unfolding load
load_inode_disk mem p = record {
  info = load mem p 8;
  length = load mem (p + 8) 4;
  parent = load mem (p + 12) 4;
  next_extent = load mem (p + 16) 4;
  next_first_level = load mem (p + 20) 4;
  next_second_level = load mem (p + 24) 4;
  first_level_table = load mem (p + 28) 4;
  second_level_table = load mem (p + 32) 4;
  third_level_table = load mem (p + 36) 4;
  header_extents =
      λ i. record { start = load mem (p + 40 + 8 * i) 4; sectors = load mem (p + 44 + 8 * i) 4 };
}

abbrev pub set_memory : Bytes → Fs → Fs
set_memory mem s = record s { world = record (s.world) { memory = mem } }

abbrev pub set_world : World → Fs → Fs
set_world w s = record s { world = w }

abbrev pub root_dir_sector : ℕ
root_dir_sector = 0

-- `con` is the bucket array that `kcalloc` returns, and `misread` what the bytes at the variable
-- are as a bitmap once it is assigned.
unfoldable pub init_filesystem : Block → ℕ → Bitmap → Fs → Fs
unfolding block_size bitmap_create bitmap_set hashtable_init hash_inode inode_equal
init_filesystem b con misread s =
    let (map, links) = hashtable_init con (hash_inode s.inodes) (inode_equal s.inodes) s.links in
    record s {
      fs_block = b;
      fs_free_map = bitmap_set (bitmap_create (block_size b)) root_dir_sector 1 true;
      misread_map = misread;
      inode_map = map;
      links = links;
      fs_free_map_lock = 1;
      inode_map_lock = 1;
    }
