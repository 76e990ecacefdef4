-- ===== src/Process/Load.antt =====
-- exec_process: the file is opened, its header and its table of segments are read into memory, and
-- its segments are deferred. `header` and `pht` are the addresses of the local and of the block that
-- kcalloc returns, `stale` what inode_offset returns in a read at an offset.
use dunkos.Common.{ℕ, ◌+◌, ◌*◌, true, false, Option, some, List, [], ◌==◌}
use dunkos.Common.Memory.{load, zeroed}
use dunkos.Block.{Ide}
use dunkos.Filesys.{Fs, File, Sectors, Frame, Resolved, ◌>>=◌, ensure, open_file, file_read_at}
use dunkos.Process.Exec.{Deferred, header_loop, program_header_size}

-- The bytes 0x7F, `E`, `L`, `F`, the lowest first.
abbrev pub elf_magik : ℕ
elf_magik = 0x464C457F

-- `sizeof(struct elf_header)`, which the first assertion compares with 0x40
abbrev pub elf_header_size : ℕ
elf_header_size = 0x40

abbrev pub header_progheader : ℕ → ℕ
header_progheader header = header + 32

abbrev pub header_phentsize : ℕ → ℕ
header_phentsize header = header + 54

abbrev pub header_phentcnt : ℕ → ℕ
header_phentcnt header = header + 56

-- `kcalloc(n, size)` at `p`
unfoldable pub calloc_table : ℕ → ℕ → Fs → Fs
unfolding zeroed
calloc_table p bytes s = record s {
  world = record (s.world) { memory = zeroed p bytes s.world.memory };
}

-- The entries that are read have the size that the header says, the block has `program_header_size`
-- for each.
unfoldable pub load_table :
    Ide → Sectors → (ℕ → ℕ) → File → ℕ → ℕ → Fs → Option (List Deferred × Fs)
unfolding load calloc_table file_read_at header_loop
load_table ide tables stale executable header pht s₀ = do
  let memory = s₀.world.memory
  let count = load memory (header_phentcnt header) 2
  let ofs = load memory (header_progheader header) 8
  let bytes = count * load memory (header_phentsize header) 2
  (read, s) ←
      file_read_at ide tables (stale ofs) executable pht ofs bytes
        (calloc_table pht (count * program_header_size) s₀)
  some (header_loop count 0 s.world.memory pht, s)

-- The file that becomes the executable, the calls of page_defer_load in order, and the file system;
-- `none` when an assertion fails or the file is not found, whose inode is then read through `NULL`.
unfoldable pub exec_process :
    Ide → Sectors → Frame → Resolved → (ℕ → ℕ) → ℕ → ℕ → Fs → Option (File × List Deferred × Fs)
unfolding open_file file_read_at load load_table
exec_process ide tables f r stale header pht s₀ = do
  (opened, s₁) ← open_file ide tables f r s₀
  executable ← opened
  (bytes, s₂) ← file_read_at ide tables (stale 0) executable header 0 elf_header_size s₁
  s₃ ← ensure (load s₂.world.memory header 4 == elf_magik) s₂
  elim (load s₃.world.memory (header_phentcnt header) 2 == 0) [
    | true ↦ some (executable, [], s₃)
    | false ↦ do
      (calls, s₄) ← load_table ide tables stale executable header pht s₃
      some (executable, calls, s₄)
  ]
