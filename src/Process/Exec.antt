-- ===== src/Process/Exec.antt =====
-- Loading a program. page_defer_load is empty; its calls are kept in order.
use Prim.Native.Nat.{bit_and}
use dunkos.Common.{ℕ, zero, suc, ◌+◌, ◌-◌, ◌*◌, ◌%◌, ◌^◌, Bool, true, false, not}
use dunkos.Common.{List, [], ◌∷◌, ◌++◌, ◌==◌, ltb, if◌then◌else◌, word_limit}
use dunkos.Common.Memory.{load}
use dunkos.Strings.{Bytes}
use dunkos.Paging.{page_size}

-- A call of page_defer_load, without its file.
pub record Deferred : Type 0 where
  pub vaddr : ℕ
  pub ofs : ℕ
  pub readonly : Bool

-- The loop of load_segment, on fuel; each round takes one off `size` at least.
unfoldable pub segment_loop : ℕ → ℕ → ℕ → ℕ → Bool → List Deferred
segment_loop zero page ofs size readonly = []
segment_loop (suc fuel) page ofs size readonly = elim (ltb 0 size) [
  | true ↦
      record { vaddr = page; ofs = ofs; readonly = readonly }
      ∷ segment_loop fuel ((page + page_size) % word_limit) ((ofs + page_size) % word_limit)
          (size - page_size) readonly
  | false ↦ []
]

-- For a `size` that is not negative.
unfoldable pub load_segment : ℕ → ℕ → ℕ → Bool → List Deferred
unfolding segment_loop
load_segment start ofs size readonly = segment_loop size start ofs size readonly

-- `sizeof(struct program_header)`
abbrev pub program_header_size : ℕ
program_header_size = 56

-- The loop of exec_process over the program headers at `pht`, from `pht_index` on. A size from
-- `2 ^ 63` on is negative.
unfoldable pub header_loop : ℕ → ℕ → Bytes → ℕ → List Deferred
unfolding load load_segment
header_loop zero pht_index memory pht = []
header_loop (suc left) pht_index memory pht =
    let phte = pht + program_header_size * pht_index in
    let size = load memory (phte + 32) 8 in
    let readonly = not (bit_and (load memory (phte + 4) 4) 4 == 0) in
    let segment =
      if ltb size (2 ^ 63)
      then load_segment (load memory (phte + 16) 8) (load memory (phte + 8) 8) size readonly
      else [] in
    let rest = header_loop left (pht_index + 1) memory pht in
    if load memory phte 4 == 1 then segment ++ rest else rest
