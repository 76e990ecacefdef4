-- ===== src/Filesys/Create.antt =====
-- What the file system never does: open an inode, give a file space, or report a file as created.
use dunkos.Common.{ℕ, ◌-◌, ◌*◌, ◌^◌, ◌<◌, ◌≤◌, ◌≡◌, refl, arith}
use dunkos.Common.{Bool, true, false, ◌||◌, Option, some, none, ◌==◌, leb, ltb}
use dunkos.Common.{Bool-cases, inl, inr}
use dunkos.Bitmap.{bitmap_all, bitmap_size, bitmap_npos, div_rnd_up}
use dunkos.Block.{Ide, block_write}
use dunkos.Filesys.Inode.{Sectors, inode_disk_npos}
use dunkos.Filesys.State.{Fs, ◌>>=◌}
use dunkos.Filesys.Space.{
  open_inode, get_inode, create_inode, write_inode, inode_disk_allocate_space,
}
use dunkos.Filesys.Space.{free_map_allocate}
use dunkos.Filesys.Access.{inode_write_at}
use dunkos.Filesys.Files.{Dir, file_write_at, dir_close, dir_entry_size, fileinfo_mode_base}
use dunkos.Filesys.Dirs.{
  Frame, Resolved, with_entry, add_entry, dir_get_mapping, dir_add_file, add_created, create_file,
}

-- For no sector does open_inode return: it takes the lock of the map and then calls get_inode,
-- which waits for the same lock; or an assertion before that fails. (The lock is a binary one.)
pub open_inode-waits :
    (ide : Ide) (fresh key sector : ℕ) (s : Fs)
    → s.inode_map_lock ≤ 1
    → open_inode ide fresh key sector s ≡ none
unfolding open_inode get_inode
open_inode-waits ide fresh key sector s binary = elim (Bool-cases (s.fs_free_map_lock == 0)) [
  | inl e ↦ rw e refl
  | inr e ↦ elim (Bool-cases (ltb sector (bitmap_size s.misread_map))) [
    | inr f ↦ rw (e, f) refl
    | inl f ↦ elim (Bool-cases (bitmap_all s.fs_free_map sector 1 true)) [
      | inr g ↦ rw (e, f, g) refl
      | inl g ↦ elim (Bool-cases (s.inode_map_lock == 0)) [
        | inl h ↦ rw (e, f, g, h) refl
        | inr h ↦
            let taken : (s.inode_map_lock - 1 == 0) ≡ true = ground arith in
            rw (e, f, g, h, taken) refl
      ]
    ]
  ]
]

-- Whether an operation returns `true`.
abbrev pub succeeded : Option (Bool × Fs) → Bool
succeeded none = false
succeeded (some (b, _)) = b

bind_fails {ℓ} :
    {A : Type ℓ} (o : Option A) (k : A → Option (Bool × Fs))
    → ((x : A) → succeeded (k x) ≡ false)
    → succeeded (o >>= k) ≡ false
bind_fails none k h = refl
bind_fails (some x) k h = h x

pass_on :
    (o : Option (Bool × Fs)) (close : Fs → Option Fs)
    → succeeded o ≡ false
    → succeeded (o >>= λ (b, s). close s >>= λ s'. some (b, s')) ≡ false
pass_on none close h = refl
pass_on (some (b, s)) close h = bind_fails (close s) (λ s'. some (b, s')) (λ s'. h)

module _ (ide : Ide) (tables : Sectors) where
  -- The 40 bytes of an entry are written, but the result is 472.
  write_fails :
      (stale : ℕ) (dir : Dir) (src at : ℕ) (s : Fs)
      → succeeded (
          file_write_at ide tables stale dir.base src at dir_entry_size s >>= λ (written, s').
          some (written == dir_entry_size, s'))
        ≡ false
  unfolding file_write_at inode_write_at block_write
  write_fails stale dir src at s = elim (Bool-cases ((s.inodes dir.base.inode).lock == 0)) [
    | inl e ↦ rw e refl
    | inr e ↦ rw e refl
  ]

  add_entry_fails :
      (f : Frame) (dir : Dir) (sector name found : ℕ) (at : Option ℕ) (s : Fs)
      → succeeded (add_entry ide tables f dir sector name found at s) ≡ false
  unfolding add_entry
  add_entry_fails f dir sector name found none s = refl
  add_entry_fails f dir sector name found (some emptyofs) s =
      elim (Bool-cases (found == inode_disk_npos)) [
        | inl e ↦ rw e refl
        | inr e ↦ rw e (
            write_fails f.write_stale dir f.new_ent emptyofs
              (with_entry ide tables f sector name s))
      ]

  add_file_fails :
      (f : Frame) (dir : Option Dir) (sector name : ℕ) (s : Fs)
      → succeeded (dir_add_file ide tables f dir sector name s) ≡ false
  unfolding dir_add_file
  add_file_fails f none sector name s = refl
  add_file_fails f (some dir) sector name s =
      bind_fails (dir_get_mapping ide tables f dir name s)
        (λ (found, at, s₁). add_entry ide tables f dir sector name found at s₁)
        (λ (found, at, s₁). add_entry_fails f dir sector name found at s₁)

  add_created_fails :
      (f : Frame) (r : Resolved) (header : Option ℕ) (s : Fs)
      → succeeded (add_created ide tables f r header s) ≡ false
  unfolding add_created
  add_created_fails f r none s = refl
  add_created_fails f r (some sector) s = add_file_fails f r.parent sector r.filename s

  -- create_file never reports success, whatever the directory and the name: the entry of 40 bytes is
  -- found to be written in part.
  pub create_file-fails :
      (f : Frame) (r : Resolved) (mode : ℕ) (s : Fs)
      → succeeded (create_file ide tables f r mode s) ≡ false
  unfolding create_file
  create_file-fails f r mode s =
      bind_fails (create_inode ide f.block 0 (mode * 2 ^ fileinfo_mode_base) s)
        (λ (header, s₁). add_created ide tables f r header s₁ >>= λ (b, s₂).
          dir_close ide tables r.parent s₂ >>= λ s₃. some (b, s₃))
        (λ (header, s₁).
          pass_on (add_created ide tables f r header s₁) (dir_close ide tables r.parent)
            (add_created_fails f r header s₁))

-- The header that an operation made.
abbrev pub made : Option (Option ℕ × Fs) → Option ℕ
made none = none
made (some (header, _)) = header

write_inode_fails :
    (ide : Ide) (idisk sectors info header : ℕ) (s : Fs)
    → s.fs_free_sectors ≡ 0
    → (sectors == 0) ≡ false
    → made (write_inode ide idisk sectors info header s) ≡ none
unfolding write_inode inode_disk_allocate_space
write_inode_fails ide idisk sectors info header s full more =
    let short : leb sectors 0 ≡ false = ground (arith, more) in
    elim (Bool-cases (header == bitmap_npos || idisk == 0)) [
      | inl e ↦ rw e refl
      | inr e ↦ elim (Bool-cases (s.fs_free_map_lock == 0)) [
        | inl f ↦ rw (e, more, f) refl
        | inr f ↦ rw (e, more, f, full, short) refl
      ]
    ]

some_sectors : (n : ℕ) → 0 < n → (div_rnd_up n 512 == 0) ≡ false
unfolding div_rnd_up
some_sectors n h = ground arith

-- create_inode makes no inode of more than no bytes: the count of free sectors, which no function
-- sets, is 0, so no space is found for it.
pub create_inode-nonempty :
    (ide : Ide) (idisk size info : ℕ) (s : Fs)
    → s.fs_free_sectors ≡ 0
    → 0 < size
    → made (create_inode ide idisk size info s) ≡ none
unfolding create_inode free_map_allocate
create_inode-nonempty ide idisk size info s full some_bytes =
    let more : (div_rnd_up size 512 == 0) ≡ false = some_sectors size some_bytes in
    elim (Bool-cases (s.fs_free_map_lock == 0)) [
      | inl e ↦ rw e refl
      | inr e ↦ elim (Bool-cases (ltb 1 (bitmap_size s.misread_map))) [
        | inr f ↦ rw (e, f) refl
        | inl f ↦ rw (e, f) (write_inode_fails ide idisk (div_rnd_up size 512) info _ _ full more)
      ]
    ]
