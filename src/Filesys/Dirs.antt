-- ===== src/Filesys/Dirs.antt =====
-- Directories, and the files that are made and opened by name. `resolve_path` returns nothing, so what
-- it leaves is an argument: the name, 0 for `NULL`, and the parent, `none` for `NULL`. A read through a
-- `NULL` directory has no result.
use dunkos.Common.Memory.{load, store, zeroed}
use dunkos.Common.{ℕ, zero, suc, ◌+◌, ◌*◌, ◌%◌, ◌^◌, Bool, true, false, not}
use dunkos.Common.{Option, none, some, ◌==◌, if◌then◌else◌, update}
use dunkos.Common.Int.{ℤ, pos, negsuc}
use dunkos.Strings.{strncmp}
use dunkos.Block.{Ide, block_read}
use dunkos.Filesys.Inode.{Sectors, inode_disk_npos}
use dunkos.Filesys.State.{Fs, ◌>>=◌, set_memory, set_world}
use dunkos.Filesys.State.{load_inode_disk, root_dir_sector}
use dunkos.Filesys.Space.{create_inode, get_inode}
use dunkos.Filesys.Access.{inode_free_data}
use dunkos.Filesys.Files.{File, Dir, dir_entry_size, dir_base_ofs, name_max, fileinfo_mode_base}
use dunkos.Filesys.Files.{init_file, file_close, dir_close, file_read_at, file_write_at}

-- What a call finds on the stack and in the heap: the addresses of the locals `ent`, `new_ent` and
-- `key`, of the literals, and of the block that `kcalloc` returns, and what inode_offset returns in a
-- read at an offset and in a write.
pub record Frame : Type 0 where
  pub ent : ℕ
  pub new_ent : ℕ
  pub key : ℕ
  pub dot : ℕ
  pub dot_dot : ℕ
  pub zeroes : ℕ
  pub block : ℕ
  pub read_stale : ℕ → ℕ
  pub write_stale : ℕ

pub record Resolved : Type 0 where
  pub filename : ℕ
  pub parent : Option Dir

abbrev is_zero : ℤ → Bool
is_zero (pos n) = n == 0
is_zero (negsuc n) = false

module _ (ide : Ide) (tables : Sectors) where
  -- The loop from offset `ofs` on, with `left` rounds to go: the sector, and the offset of the entry.
  unfoldable pub mapping_loop : ℕ → ℕ → Frame → Dir → ℕ → Fs → Option (ℕ × Option ℕ × Fs)
  unfolding file_read_at strncmp load
  mapping_loop zero ofs f dir name s = some (inode_disk_npos, none, s)
  mapping_loop (suc left) ofs f dir name s₀ = do
    (bytes, s) ← file_read_at ide tables (f.read_stale ofs) dir.base f.ent ofs dir_entry_size s₀
    elim (is_zero (strncmp s.world.memory f.ent name name_max)) [
      | true ↦ some (load s.world.memory (f.ent + 36) 4, some ofs, s)
      | false ↦ mapping_loop left (ofs + dir_entry_size) f dir name s
    ]

  -- The offsets below 512 that are multiples of 40.
  unfoldable pub dir_get_mapping : Frame → Dir → ℕ → Fs → Option (ℕ × Option ℕ × Fs)
  unfolding mapping_loop
  dir_get_mapping f dir name s = mapping_loop 13 0 f dir name s

  -- `new_ent` with its initializer: `.name = name` sets the first byte of the array to the lowest
  -- byte of the pointer.
  abbrev pub with_entry : Frame → ℕ → ℕ → Fs → Fs
  with_entry f sector name s =
      let blank = zeroed f.new_ent dir_entry_size s.world.memory in
      set_memory (store (f.new_ent + 36) 4 sector (update blank f.new_ent (name % 256))) s

  -- The `if` of dir_add_file, for what dir_get_mapping found. A mapping that is found has an offset.
  unfoldable pub add_entry : Frame → Dir → ℕ → ℕ → ℕ → Option ℕ → Fs → Option (Bool × Fs)
  unfolding store zeroed file_write_at
  add_entry f dir sector name found none s₁ = some (false, s₁)
  add_entry f dir sector name found (some emptyofs) s₁ =
      if found == inode_disk_npos then some (false, s₁) else do
        (written, s₂) ←
            file_write_at ide tables f.write_stale dir.base f.new_ent emptyofs dir_entry_size
              (with_entry f sector name s₁)
        some (written == dir_entry_size, s₂)

  unfoldable pub dir_add_file : Frame → Option Dir → ℕ → ℕ → Fs → Option (Bool × Fs)
  unfolding dir_get_mapping add_entry
  dir_add_file f none sector name s₀ = none
  dir_add_file f (some dir) sector name s₀ = do
    (found, at, s₁) ← dir_get_mapping f dir name s₀
    add_entry f dir sector name found at s₁

  -- The function ends without a `return`, so only its effect is given.
  unfoldable pub dir_remove : Frame → Option Dir → ℕ → Fs → Option Fs
  unfolding dir_get_mapping file_write_at block_read inode_free_data load_inode_disk zeroed
  dir_remove f none name s₀ = none
  dir_remove f (some dir) name s₀ = do
    (sector, at, s₁) ← dir_get_mapping f dir name s₀
    elim at [
      | none ↦ some s₁
      | some entryofs ↦ if sector == inode_disk_npos then some s₁ else do
        (written, s₂) ←
            file_write_at ide tables f.write_stale dir.base f.zeroes entryofs dir_entry_size s₁
        let s₃ = set_memory (zeroed f.block 512 s₂.world.memory) s₂
        let (bytes, w) = block_read ide s₃.fs_block f.block sector 512 s₃.world
        inode_free_data tables (load_inode_disk w.memory f.block) (set_world w s₃)
    ]

  -- The second operand of `&&` in create_file, for what create_inode made.
  unfoldable pub add_created : Frame → Resolved → Option ℕ → Fs → Option (Bool × Fs)
  unfolding dir_add_file
  add_created f r none s = some (false, s)
  add_created f r (some header_sector) s = dir_add_file f r.parent header_sector r.filename s

  unfoldable pub create_file : Frame → Resolved → ℕ → Fs → Option (Bool × Fs)
  unfolding create_inode add_created dir_close
  create_file f r mode s₀ = do
    (header, s₁) ← create_inode ide f.block 0 (mode * 2 ^ fileinfo_mode_base) s₀
    (success, s₂) ← add_created f r header s₁
    s₃ ← dir_close ide tables r.parent s₂
    some (success, s₃)

  -- `result` is what dir_remove leaves as its result.
  unfoldable pub remove_file : Frame → Resolved → Bool → Fs → Option (Bool × Fs)
  unfolding dir_remove dir_close
  remove_file f r result s₀ = do
    s₁ ← dir_remove f r.parent r.filename s₀
    s₂ ← dir_close ide tables r.parent s₁
    some (result, s₂)

  -- The inode of a name in a directory.
  unfoldable pub named_inode : Frame → Option Dir → ℕ → Fs → Option (ℕ × Fs)
  unfolding dir_get_mapping get_inode
  named_inode f none name s₀ = none
  named_inode f (some dir) name s₀ = do
    (sector, at, s) ← dir_get_mapping f dir name s₀
    get_inode f.key sector s

  unfoldable pub open_file : Frame → Resolved → Fs → Option (Option File × Fs)
  unfolding named_inode init_file dir_close
  open_file f r s₀ = do
    (file, s₁) ←
        (if r.filename == 0 then some (none, s₀) else do
          (inode, s) ← named_inode f r.parent r.filename s₀
          (opened, s') ← init_file inode s
          some (some opened, s'))
    s₂ ← dir_close ide tables r.parent s₁
    some (file, s₂)

  -- The inode that open_dir opens, 0 for none.
  unfoldable pub dir_inode : Frame → Resolved → Option Dir → Fs → Option (ℕ × Fs)
  unfolding named_inode get_inode
  dir_inode f r relative s =
      if not (r.filename == 0) then named_inode f r.parent r.filename s else elim (r.parent) [
        | none ↦ some (0, s)
        | some parent ↦ elim relative [
          | none ↦ none
          | some dir ↦ get_inode f.key (s.inodes dir.base.inode).sector s
        ]
      ]

  unfoldable pub open_dir : Frame → Resolved → Option Dir → Fs → Option (Option Dir × Fs)
  unfolding dir_inode init_file dir_close
  open_dir f r relative s₀ = do
    (inode, s₁) ← dir_inode f r relative s₀
    (dir, s₂) ←
        (if inode == 0 then some (none, s₁) else do
          (file, s) ← init_file inode s₁
          let opened : Dir = record {
            base = record file { is_directory = true };
            next_entry = dir_base_ofs;
          }
          some (some opened, s))
    s₃ ← dir_close ide tables r.parent s₂
    some (dir, s₃)

  abbrev pub parent_or_self : Dir → Option Dir → Fs → ℕ
  parent_or_self dir none s = (s.inodes dir.base.inode).sector
  parent_or_self dir (some _) s =
      (load_inode_disk s.world.memory (s.inodes dir.base.inode).inode_data).parent

  -- `f` is the frame of the first calls, `f'` that of the second dir_add_file.
  unfoldable pub init_dir : Frame → Frame → Resolved → Option Dir → Fs → Option (Bool × Fs)
  unfolding open_dir dir_add_file file_close load_inode_disk
  init_dir f f' r relative s₀ = do
    (opened, s₁) ← open_dir f r relative s₀
    elim opened [
      | none ↦ none
      | some dir ↦ do
        (up, s₂) ← dir_add_file f (some dir) (parent_or_self dir relative s₁) f.dot_dot s₁
        (success, s₃) ←
            (if up
              then dir_add_file f' (some dir) (s₂.inodes dir.base.inode).sector f'.dot s₂
              else some (false, s₂))
        s₄ ← file_close ide tables (some (dir.base)) s₃
        some (success, s₄)
    ]

  -- `r` and `r'` are what the two resolve_path leave.
  unfoldable pub create_dir :
      Frame → Frame → Frame → Resolved → Resolved → Option Dir → Fs → Option (Bool × Fs)
  unfolding create_file init_dir
  create_dir f f' f'' r r' relative s₀ = do
    (created, s) ← create_file f r 0x1B6 s₀
    if created then init_dir f' f'' r' relative s else some (false, s)

unfoldable pub get_root_dir : ℕ → Fs → Option (Dir × Fs)
unfolding get_inode
get_root_dir key s₀ = do
  (inode, s) ← get_inode key root_dir_sector s₀
  let file : File = record { inode = inode; streampos = 0; is_directory = true }
  some (record { base = file; next_entry = dir_base_ofs }, s)
