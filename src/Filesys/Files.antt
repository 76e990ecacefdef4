-- ===== src/Filesys/Files.antt =====
-- Files and directories. What `resolve_path` leaves is an argument, since it returns nothing: the
-- name, and the parent directory. A `NULL` name is 0, a `NULL` directory `none`.
use Prim.Native.Nat.{bit_and, bit_or}
use dunkos.Common.Memory.{load, store}
use dunkos.Common.{ℕ, ◌+◌, ◌-◌, ◌*◌, ◌/◌, ◌%◌, ◌^◌, Bool, false}
use dunkos.Common.{Option, none, some, ◌==◌, word_limit}
use dunkos.Block.{Ide}
use dunkos.Filesys.Inode.{Sectors}
use dunkos.Filesys.State.{Fs, ◌>>=◌, acquire_inode, release_inode, set_memory}
use dunkos.Filesys.State.{load_inode_disk}
use dunkos.Filesys.Access.{inode_read_at, inode_write_at, inode_close}

pub record File : Type 0 where
  pub inode : ℕ
  pub streampos : ℕ
  pub is_directory : Bool

pub record Dir : Type 0 where
  pub base : File
  pub next_entry : ℕ

-- `sizeof(struct dir_entry)`: 33 bytes of name, three of padding, four of sector.
abbrev pub dir_entry_size : ℕ
dir_entry_size = 40

abbrev pub dir_base_ofs : ℕ
dir_base_ofs = dir_entry_size * 2

abbrev pub name_max : ℕ
name_max = 32

abbrev pub fileinfo_mode_base : ℕ
fileinfo_mode_base = 8

-- `filemode(FILEINFO_ALL_PERM, ...)` for the user, the group and all
abbrev pub fileinfo_mode_mask : ℕ
fileinfo_mode_mask = 0x1FF00

unfoldable pub init_file : ℕ → Fs → Option (File × Fs)
init_file inode s₀ = do
  s ← acquire_inode inode s₀
  some (record { inode = inode; streampos = 0; is_directory = false }, release_inode inode s)

-- `none` is `NULL`.
unfoldable pub file_close : Ide → Sectors → Option File → Fs → Option Fs
unfolding inode_close
file_close ide tables none s = some s
file_close ide tables (some f) s = inode_close ide tables f.inode s

abbrev pub parent_file : Option Dir → Option File
parent_file none = none
parent_file (some dir) = some dir.base

unfoldable pub dir_close : Ide → Sectors → Option Dir → Fs → Option Fs
unfolding file_close
dir_close ide tables dir s = file_close ide tables (parent_file dir) s

-- The address of `inode->data.info`, which is the first field.
abbrev pub info_at : File → Fs → ℕ
info_at f s = (s.inodes f.inode).inode_data

unfoldable pub file_set_info : File → ℕ → Fs → Option Fs
unfolding store
file_set_info f infomask s₀ = do
  s ← acquire_inode f.inode s₀
  some (release_inode f.inode (set_memory (store (info_at f s) 8 infomask s.world.memory) s))

unfoldable pub file_get_info : File → Fs → Option (ℕ × Fs)
unfolding load
file_get_info file s₀ = do
  s ← acquire_inode file.inode s₀
  some (load s.world.memory (info_at file s) 8, release_inode file.inode s)

-- For a mode that is no negative number and less than `2 ^ 23`; `~FILEINFO_MODE_MASK` is widened.
unfoldable pub file_set_mode : File → ℕ → Fs → Option Fs
unfolding file_get_info file_set_info
file_set_mode file mode s₀ = do
  (all, s) ← file_get_info file s₀
  let info = bit_and all (word_limit - 1 - fileinfo_mode_mask)
  file_set_info file (bit_or info (mode * 2 ^ fileinfo_mode_base)) s

-- The pattern of the 32-bit `mode_t`.
unfoldable pub file_get_mode : File → Fs → ℕ
unfolding load
file_get_mode file s = load s.world.memory (info_at file s) 8 / 2 ^ fileinfo_mode_base % 2 ^ 32

unfoldable pub file_read_at : Ide → Sectors → ℕ → File → ℕ → ℕ → ℕ → Fs → Option (ℕ × Fs)
unfolding inode_read_at
file_read_at ide tables stale f dest at count s =
    inode_read_at ide tables stale f.inode dest at count s

unfoldable pub file_read : Ide → Sectors → ℕ → File → ℕ → ℕ → Fs → Option (ℕ × File × Fs)
unfolding file_read_at
file_read ide tables stale f dest count s₀ = do
  (bytes_read, s) ← file_read_at ide tables stale f dest f.streampos count s₀
  some (bytes_read, record f { streampos = (f.streampos + bytes_read) % word_limit }, s)

unfoldable pub file_write_at : Ide → Sectors → ℕ → File → ℕ → ℕ → ℕ → Fs → Option (ℕ × Fs)
unfolding inode_write_at
file_write_at ide tables stale f src at count s =
    inode_write_at ide tables stale f.inode src at count s

unfoldable pub file_write : Ide → Sectors → ℕ → File → ℕ → ℕ → Fs → Option (ℕ × File × Fs)
unfolding file_write_at
file_write ide tables stale f src count s₀ = do
  (bytes_written, s) ← file_write_at ide tables stale f src f.streampos count s₀
  some (bytes_written, record f { streampos = (f.streampos + bytes_written) % word_limit }, s)

unfoldable pub file_eof : File → Fs → Option (Bool × Fs)
unfolding load_inode_disk
file_eof f s₀ = do
  s ← acquire_inode f.inode s₀
  let idisk = load_inode_disk s.world.memory (s.inodes f.inode).inode_data
  some (f.streampos == idisk.length, release_inode f.inode s)

unfoldable pub file_isdir : File → Bool
file_isdir f = f.is_directory
