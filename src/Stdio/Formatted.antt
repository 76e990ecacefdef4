-- ===== src/Stdio/Formatted.antt =====
-- The formatted writes of fdbuf.c. vsnprintf is declared and not defined in the sources, so it is a
-- parameter: its result and memory after it, for a destination, its size, a format, the arguments and
-- memory. `block` is the zeroed block of `calloc`, which is a parameter, too: the `heap_block_get` that
-- the library's calloc calls has no body.
use dunkos.Common.{ℕ, List, if◌then◌else◌}
use dunkos.Common.Memory.{zeroed}
use dunkos.Strings.{Bytes}
use dunkos.Stdio.Defs.{Program, write, fwrite}

abbrev pub Vsnprintf : Type 0
Vsnprintf = ℕ → ℕ → ℕ → List ℕ → Bytes → ℕ × Bytes

-- The result, `*wrsz` and the program; `*dst` is the block.
unfoldable pub dupformat : Vsnprintf → ℕ → ℕ → List ℕ → Program → ℕ × ℕ × Program
unfolding zeroed
dupformat vsnprintf block format argv s =
    let (allocsz, mem) = vsnprintf 0 0 format argv s.memory in
    let (argc, mem') = vsnprintf block allocsz format argv (zeroed block allocsz mem) in
    (argc, allocsz, record s { memory = mem' })

unfoldable pub vdprintf : Vsnprintf → ℕ → ℕ → ℕ → List ℕ → Program → ℕ × Program
unfolding dupformat write
vdprintf vsnprintf block fd format argv s =
    let (argc, bfrsiz, u) = dupformat vsnprintf block format argv s in
    (argc, write fd block bfrsiz u)

-- The arguments that are given in the call are collected into a list.
unfoldable pub dprintf : Vsnprintf → ℕ → ℕ → ℕ → List ℕ → Program → ℕ × Program
unfolding vdprintf
dprintf vsnprintf block fd format argv s = vdprintf vsnprintf block fd format argv s

-- `result` is what `write` returns.
unfoldable pub vfprintf : Vsnprintf → (ℕ → List ℕ → ℕ) → ℕ → ℕ → List ℕ → Program → ℕ × Program
unfolding dupformat fwrite
vfprintf vsnprintf result block format argv s =
    let (argc, allocsz, u) = dupformat vsnprintf block format argv s in
    if s.stream.wr then (argc, (fwrite result block 1 allocsz u).1) else (0, s)

unfoldable pub fprintf : Vsnprintf → (ℕ → List ℕ → ℕ) → ℕ → ℕ → List ℕ → Program → ℕ × Program
unfolding vfprintf
fprintf vsnprintf result block format argv s = vfprintf vsnprintf result block format argv s

-- `vprintf` of stdio.c, for the program whose stream is stdout.
unfoldable pub vprintf : Vsnprintf → (ℕ → List ℕ → ℕ) → ℕ → ℕ → List ℕ → Program → ℕ × Program
unfolding vfprintf
vprintf vsnprintf result block format argv s = vfprintf vsnprintf result block format argv s
