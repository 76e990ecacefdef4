-- ===== src/Fdtable/Defs.antt =====
-- The descriptor table of fdtable.c. A `struct fd` at address `fd` has its number, type and stream in
-- the maps below, and its `bucket_elem` at `fd + 8`. Locks guard each operation and change nothing
-- that is modelled here. What `open_file` returns is an argument.
use Prim.Native.Nat.{bit_xor}
use dunkos.Common.{
  ℕ, ◌+◌, ◌-◌, ◌*◌, ◌/◌, ◌%◌, ◌^◌, Bool, true, false, not, ◌&&◌, Option, none, some,
}
use dunkos.Common.{◌==◌, ltb, if◌then◌else◌, update, word_limit}
use dunkos.LinkedList.{Mem, null}
use dunkos.Hashtable.{Hashtable, hashtable_init, hashtable_find, hashtable_insert}
use dunkos.Bitmap.{Bitmap, bitmap_create, bitmap_set, bitmap_size, bitmap_scan_and_flip, bitmap_all}

-- `hash_uint64` of algo.h
unfoldable pub hash_uint64 : ℕ → ℕ
hash_uint64 h =
    let h = bit_xor h (h / 2 ^ 33) in
    let h = (h * 0xFF51AFD7ED558CCD) % word_limit in
    let h = bit_xor h (h / 2 ^ 33) in
    let h = (h * 0xC4CEB9FE1A85EC53) % word_limit in bit_xor h (h / 2 ^ 33)

pub data FdType : Type 0 where
  file mem net : FdType

-- The descriptors in memory, the table's map and bitmap, and the pointers of the list elements.
pub record FdState : Type 0 where
  pub links : Mem
  pub number : ℕ → ℕ
  pub kind : ℕ → FdType
  pub io_object : ℕ → ℕ
  pub fdmap : Hashtable
  pub freefdmap : Bitmap

abbrev pub bucket_elem : ℕ → ℕ
bucket_elem fd = fd + 8

-- `elem_value(e, struct fd, bucket_elem)`
abbrev pub fd_of : ℕ → ℕ
fd_of e = e - 8

-- An `int` as it is converted to `uint64_t`: the number is a 32-bit pattern.
abbrev pub sign_extend : ℕ → ℕ
sign_extend n = if ltb n (2 ^ 31) then n else n + (word_limit - 2 ^ 32)

unfoldable pub hash_fd : (ℕ → ℕ) → ℕ → ℕ
unfolding hash_uint64
hash_fd number e = hash_uint64 (sign_extend (number (fd_of e)))

unfoldable pub fd_identity : (ℕ → ℕ) → ℕ → ℕ → Bool
fd_identity number l r = number (fd_of l) == number (fd_of r)

-- The callbacks read the numbers as they are when the table is used.
abbrev pub callbacks : FdState → Hashtable
callbacks s = record (s.fdmap) { fn = hash_fd s.number; eq = fd_identity s.number }

-- `con` is the bucket array that `kcalloc` returns.
unfoldable pub create_fdtable : ℕ → ℕ → FdState → FdState
create_fdtable con cnt s =
    let (map, links) = hashtable_init con (hash_fd s.number) (fd_identity s.number) s.links in
    record s { links = links; fdmap = map; freefdmap = bitmap_set (bitmap_create cnt) 0 3 true }

unfoldable pub fdtable_size : FdState → ℕ
fdtable_size s = bitmap_size s.freefdmap

-- `fd` is the zeroed block that `kcalloc` returns, and `stream` what `open_file` returns.
unfoldable pub fdtable_open : ℕ → ℕ → FdState → FdState
fdtable_open fd stream s =
    let fresh = record s {
      number = update s.number fd 0;
      kind = update s.kind fd file;
      io_object = update s.io_object fd null;
    } in
    let (map, links) = hashtable_insert (callbacks fresh) (bucket_elem fd) fresh.links in
    let (index, bits) = bitmap_scan_and_flip s.freefdmap 0 1 true in
    record fresh {
      links = links;
      fdmap = map;
      freefdmap = bits;
      io_object = update fresh.io_object fd stream;
      number = update fresh.number fd (index % 2 ^ 32);
    }

-- `key` is the address of the key on the stack.
unfoldable pub fdtable_lookupfd : ℕ → ℕ → FdState → ℕ
fdtable_lookupfd key fd s =
    let el =
      hashtable_find (callbacks (record s { number = update s.number key fd })) (bucket_elem key)
        s.links in
    if not (el == null) then fd_of el else null

unfoldable pub fd_get : ℕ → FdState → ℕ
fd_get fd s = s.number fd

-- `fd_chmod`: whether the mode may be set, and the stream whose mode is set.
unfoldable pub fd_chmod : ℕ → FdState → Bool × Option ℕ
fd_chmod fd s = elim (s.kind fd) [ file ↦ (true, some (s.io_object fd)) | _ ↦ (false, none) ]

-- `fd_eof`, with what `file_eof` says of a stream.
unfoldable pub fd_eof : (ℕ → Bool) → ℕ → FdState → Bool
fd_eof file_eof fd s = elim (s.kind fd) [ file ↦ file_eof (s.io_object fd) | _ ↦ false ]

-- The semaphore numbers of a process: `sget` and `sunget` of syscall.c on `semtable_map`.
unfoldable pub sget : Bitmap → ℕ × Bitmap
sget semtable_map =
    let (index, map) = bitmap_scan_and_flip semtable_map 0 1 true in (index % 2 ^ 32, map)

unfoldable pub sunget : ℕ → Bitmap → Bitmap
sunget sema semtable_map =
    if bitmap_all semtable_map (sign_extend sema) 1 true
    then bitmap_set semtable_map (sign_extend sema) 1 false
    else semtable_map

-- `if (sema > -1 && sema < bitmap_size(...))` of `sinc` and `sdec`, for an `int` pattern.
unfoldable pub sema_in_table : ℕ → Bitmap → Bool
sema_in_table sema semtable_map = ltb sema (2 ^ 31) && ltb sema (bitmap_size semtable_map)
