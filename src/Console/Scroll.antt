-- ===== src/Console/Scroll.antt =====
-- scroll_down and clear_console, byte by byte.
use dunkos.Common.{ℕ, zero, suc, ◌+◌, ◌*◌, ◌%◌, ◌≡◌, arith}
use dunkos.Common.{◌&&◌, ◌==◌, ltb, leb, if◌then◌else◌, update}
use dunkos.Console.Defs.{Console, blank_loop, copy_up_loop, scroll_down}

blank_loop_lem :
    (left i : ℕ) (vga : ℕ → ℕ) (q : ℕ)
    → i % 2 ≡ 0
    → blank_loop left i vga q
      ≡ (if leb i q && ltb q (i + 2 * left) then (if q % 2 == 0 then b' ' else 0x00) else vga q)
unfolding blank_loop
blank_loop_lem zero i vga q even = ground arith
blank_loop_lem (suc left) i vga q even =
    ground
      (arith, blank_loop_lem left (i + 2) (update (update vga i b' ') (i + 1) 0x00) q (omega arith))

copy_up_loop_lem :
    (left i : ℕ) (vga : ℕ → ℕ) (q : ℕ)
    → i % 2 ≡ 0
    → copy_up_loop left i vga q ≡ (
        if leb i q && ltb q (i + 2 * left)
        then (if q % 2 == 0 then vga (q + 160) else 0x0F)
        else vga q)
unfolding copy_up_loop
copy_up_loop_lem zero i vga q even = ground arith
copy_up_loop_lem (suc left) i vga q even = ground (
  arith,
  copy_up_loop_lem left (i + 2) (update (update vga i (vga (i + 160))) (i + 1) 0x0F) q
      (omega arith),
)

-- scroll_down moves every character one line up and gives it the default attribute, blanks the last
-- line, and writes no byte behind the screen.
pub scroll_down_lem :
    (c : Console) (q : ℕ)
    → (scroll_down c).vga_buffer q ≡ (
        if ltb q 7840
        then (if q % 2 == 0 then c.vga_buffer (q + 160) else 0x0F)
        else if ltb q 8000
        then (if q % 2 == 0 then b' ' else 0x00)
        else c.vga_buffer q)
unfolding scroll_down
scroll_down_lem c q = ground (
  arith,
  blank_loop_lem 80 7840 (copy_up_loop 3920 0 c.vga_buffer) q (omega arith),
  copy_up_loop_lem 3920 0 c.vga_buffer q (omega arith),
)
