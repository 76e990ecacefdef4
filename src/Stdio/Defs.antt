-- ===== src/Stdio/Defs.antt =====
-- The streams of fdbuf.c: fopen, fflush and fwrite. What the system call `write` returns is a
-- parameter; the calls that have been made are kept in order, with their descriptor and bytes.
use Prim.Native.Nat.{bit_and}
use dunkos.Common.{ℕ, zero, suc, ◌+◌, ◌*◌, ◌%◌, Bool, not, ◌==◌, ltb, leb, if◌then◌else◌}
use dunkos.Common.{List, [], ◌∷◌, ◌++◌, word_limit}
use dunkos.Strings.{Bytes, memcpy}

abbrev pub cachsz : ℕ
cachsz = 0x100

pub record File : Type 0 where
  pub fd : ℕ
  pub error : ℕ
  pub rd : Bool
  pub wr : Bool
  pub rdpos : ℕ
  pub wrpos : ℕ
  pub maxrd : ℕ
  pub maxwr : ℕ
  pub rdcache : ℕ
  pub wrcache : ℕ

-- A stream, memory, and the calls of `write` so far.
pub record Program : Type 0 where
  pub stream : File
  pub memory : Bytes
  pub written : List (ℕ × List ℕ)

-- `sizeof(struct _fdbuf)`
abbrev pub fdbuf_size : ℕ
fdbuf_size = 64

-- The flags that `fopen` makes of the first two characters of its modes; `junk` is the variable
-- before any assignment.
unfoldable pub open_flags : ℕ → ℕ → ℕ → ℕ
open_flags junk modechr second =
    if not (second == 0)
    then 3
    else if modechr == b'w'
    then 2
    else if modechr == b'r'
    then 1
    else if modechr == b'a'
    then 2
    else junk

-- `fopen` does not use its path. `block` is the zeroed block that `calloc` returns.
unfoldable pub fopen : ℕ → ℕ → ℕ → ℕ → File
unfolding open_flags
fopen junk block modechr second =
    let flags = open_flags junk modechr second in
    let rd = not (bit_and flags 1 == 0) in
    let wr = not (bit_and flags 2 == 0) in
    let rdcache = if rd then block + fdbuf_size else 0 in
    record {
      fd = 0;
      error = 0;
      rd = rd;
      wr = wr;
      rdpos = 0;
      wrpos = 0;
      maxrd = 0;
      maxwr = 0;
      rdcache = rdcache;
      wrcache = if wr then (if rd then rdcache + cachsz else block + fdbuf_size) else 0;
    }

-- The `n` bytes at `p`.
unfoldable pub bytes_at : Bytes → ℕ → ℕ → List ℕ
bytes_at mem p zero = []
bytes_at mem p (suc n) = mem p ∷ bytes_at mem (p + 1) n

-- `write(fd, p, n)`
unfoldable pub write : ℕ → ℕ → ℕ → Program → Program
unfolding bytes_at
write fd p n s = record s { written = s.written ++ ((fd, bytes_at s.memory p n) ∷ []) }

unfoldable pub fflush : Program → Program
unfolding write
fflush s =
    let f = s.stream in
    if ltb 0 f.wrpos
    then record (write f.fd f.wrcache f.wrpos s) { stream = record f { wrpos = 0 } }
    else s

-- `result` is what `write` returns for a descriptor and bytes.
unfoldable pub fwrite : (ℕ → List ℕ → ℕ) → ℕ → ℕ → ℕ → Program → ℕ × Program
unfolding write fflush bytes_at
fwrite result ptr size nmemb s =
    let wrsz = (size * nmemb) % word_limit in
    if not (s.stream.wr)
    then (0, s)
    else if ltb wrsz s.stream.maxwr
    then (let u = if leb cachsz ((s.stream.wrpos + wrsz) % word_limit) then fflush s else s in
        (
          0,
          record u {
            memory = memcpy u.memory u.stream.wrcache ptr wrsz;
            stream = record (u.stream) { wrpos = (u.stream.wrpos + wrsz) % word_limit };
          },
        ))
    else (let u = fflush s in
        (
          result u.stream.fd (bytes_at u.memory ptr wrsz) % word_limit,
          write u.stream.fd ptr wrsz u,
        ))
