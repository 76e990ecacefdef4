-- ===== src/Stdio/Streams.antt =====
-- The standard streams, fread, fputc and the small functions of fdbuf.c. The system calls `read` and
-- `eof` are parameters: `read` gives its result and memory after it, for a descriptor, an address, a
-- number of bytes and memory.
use dunkos.Common.{
  ℕ, ◌+◌, ◌-◌, ◌*◌, ◌%◌, Bool, true, false, not, ◌==◌, ltb, leb, if◌then◌else◌, update,
}
use dunkos.Common.{List, word_limit}
use dunkos.Strings.{Bytes, memcpy}
use dunkos.Stdio.Defs.{File, Program, cachsz, fflush, fwrite}

abbrev pub Read : Type 0
Read = ℕ → ℕ → ℕ → Bytes → ℕ × Bytes

-- The blocks are what `calloc` returns, if it is called.
unfoldable pub init_stdfile : ℕ → ℕ → File → ℕ → Bool → Bool → File
init_stdfile rdblock wrblock stream fd wr rd = record stream {
  fd = fd;
  wr = wr;
  rd = rd;
  rdcache = if rd then rdblock else stream.rdcache;
  wrcache = if wr then wrblock else stream.wrcache;
}

-- A `static` stream before it is set up.
abbrev pub zero_file : File
zero_file = record {
  fd = 0;
  error = 0;
  rd = false;
  wr = false;
  rdpos = 0;
  wrpos = 0;
  maxrd = 0;
  maxwr = 0;
  rdcache = 0;
  wrcache = 0;
}

-- stdin, stdout and stderr, for the three blocks.
unfoldable pub init_stdio : ℕ → ℕ → ℕ → File × File × File
unfolding init_stdfile
init_stdio in_block out_block err_block = (
  init_stdfile in_block 0 zero_file 0 false true,
  init_stdfile 0 out_block zero_file 1 true false,
  init_stdfile 0 err_block zero_file 2 true false,
)

-- The descriptor that `close` is called with, and the program after it; `free` does nothing.
unfoldable pub fclose : Program → ℕ × Program
unfolding fflush
fclose s = let u = fflush s in (u.stream.fd, u)

-- The branch of fread for fewer bytes than the cache holds: `rdpos` is not moved.
unfoldable pub read_cached : Read → ℕ → ℕ → Program → ℕ × Program
read_cached read ptr rdsz s =
    let f = s.stream in
    let (n, mem) = read f.fd f.rdcache cachsz s.memory in
    let u =
      if leb f.maxrd ((f.rdpos + rdsz) % word_limit)
      then record s { stream = record f { maxrd = n % word_limit; rdpos = 0 }; memory = mem }
      else s in
    (rdsz, record u { memory = memcpy u.memory ptr u.stream.rdcache rdsz })

-- The other branch: what the cache holds, and the rest into the start of the destination.
unfoldable pub read_direct : Read → ℕ → ℕ → Program → ℕ × Program
read_direct read ptr rdsz s =
    let f = s.stream in
    let copied = memcpy s.memory ptr f.rdcache f.maxrd in
    let rest = rdsz - f.maxrd in
    let (n, mem) = read f.fd ptr rest copied in
    let emptied = record f { maxrd = 0; rdpos = 0 } in
    if ltb 0 rest
    then ((f.maxrd + n) % word_limit, record s { stream = emptied; memory = mem })
    else (f.maxrd, record s { stream = emptied; memory = copied })

unfoldable pub fread : Read → ℕ → ℕ → ℕ → Program → ℕ × Program
unfolding read_cached read_direct memcpy
fread read ptr size nmemb s =
    let rdsz = (size * nmemb) % word_limit in
    if not (s.stream.rd)
    then (0, s)
    else if ltb rdsz s.stream.maxrd
    then read_cached read ptr rdsz s
    else read_direct read ptr rdsz s

unfoldable pub feof : (ℕ → ℕ) → Program → ℕ
feof eof s = eof s.stream.fd

unfoldable pub ferror : Program → ℕ
ferror s = s.stream.error

unfoldable pub fileno : Program → ℕ
fileno s = s.stream.fd

-- `val` is the address of the local byte, and `write` what the system call returns. `EOF` is the
-- pattern of -1.
unfoldable pub fputc : (ℕ → List ℕ → ℕ) → ℕ → ℕ → Program → ℕ × Program
unfolding fwrite ferror
fputc write val c s =
    let (n, u) = fwrite write val 1 1 (record s { memory = update s.memory val (c % 256) }) in
    (if not (ferror u == 0) then word_limit - 1 else c, u)
