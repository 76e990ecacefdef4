-- ===== src/Console/Defs.antt =====
-- The state and the functions of console.c. The VGA buffer is a function of the byte's offset; it has
-- `max_cells * max_lines` bytes, and what lies behind is other memory.
use dunkos.Common.{ℕ, zero, suc, ◌+◌, ◌-◌, ◌*◌, ◌/◌, ◌%◌, Bool, true, List, [], ◌∷◌}
use dunkos.Common.{◌==◌, leb, if◌then◌else◌, update, length}

abbrev pub max_cells : ℕ
max_cells = 160

abbrev pub max_lines : ℕ
max_lines = 50

abbrev pub char_width : ℕ
char_width = 2

-- `cs_frames` by index, and the other variables of the file.
pub record Console : Type 0 where
  pub line : ℕ → ℕ
  pub cell : ℕ → ℕ
  pub frame_index : ℕ
  pub enable_scrolling : Bool
  pub vga_buffer : ℕ → ℕ

-- `for (; i < MAX_CELLS * MAX_LINES; i += 2)`, with `left` rounds to go
unfoldable pub blank_loop : ℕ → ℕ → (ℕ → ℕ) → ℕ → ℕ
blank_loop zero i vga = vga
blank_loop (suc left) i vga = blank_loop left (i + 2) (update (update vga i b' ') (i + 1) 0x00)

unfoldable pub clear_console : Console → Console
clear_console c = record c { vga_buffer = blank_loop (max_cells * max_lines / 2) 0 c.vga_buffer }

unfoldable pub init_console : Console → Console
init_console c = record (clear_console c) {
  line = λ _. 0;
  cell = λ _. 0;
  frame_index = 0;
  enable_scrolling = true;
}

-- The first loop of `scroll_down`, with `left` rounds to go.
unfoldable pub copy_up_loop : ℕ → ℕ → (ℕ → ℕ) → ℕ → ℕ
copy_up_loop zero i vga = vga
copy_up_loop (suc left) i vga =
    copy_up_loop left (i + 2) (update (update vga i (vga (i + max_cells))) (i + 1) 0x0F)

abbrev pub copied : ℕ
copied = max_cells * (max_lines - 1)

unfoldable pub scroll_down : Console → Console
scroll_down c = record c {
  vga_buffer = blank_loop (max_cells / 2) copied (copy_up_loop (copied / 2) 0 c.vga_buffer);
}

-- `if (line == MAX_LINES)`: scroll, or go back to the top.
unfoldable pub end_of_screen : ℕ → Console → ℕ × Console
end_of_screen line c =
    if line == max_lines
    then (if c.enable_scrolling then (line, scroll_down c) else (0, c))
    else (line, c)

unfoldable pub newline : Console → Console
newline c =
    let (line, c') = end_of_screen (c.line c.frame_index + 1) c in
    record c' { line = update c.line c.frame_index line; cell = update c.cell c.frame_index 0 }

-- The local variables of `write_console` and the console.
pub record Writing : Type 0 where
  pub line : ℕ
  pub cell : ℕ
  pub console : Console

-- The `default` of the `switch`.
unfoldable pub put_default : ℕ → ℕ → Writing → Writing
put_default index chr w =
    let vga = update (update w.console.vga_buffer index chr) (index + 1) 0x0F in
    let written = record (w.console) { vga_buffer = vga } in
    let cell = w.cell + char_width in
    record w { cell = cell; console = if cell == max_cells then newline written else written }

-- The `switch` on one byte.
unfoldable pub put_char : ℕ → Writing → Writing
put_char chr w =
    let index = w.line * max_cells + w.cell in
    if chr == b'\t'
    then (let cell = (w.cell / 8 + 1) * 8 in
        if leb max_cells cell
        then record w { cell = cell % max_cells; console = newline w.console }
        else record w { cell = cell })
    else if chr == b'\n'
    then record w { line = w.line + 1; cell = 0 }
    else if chr == b'\r'
    then record w { cell = 0 }
    else put_default index chr w

-- One round of the loop.
unfoldable pub write_byte : ℕ → Writing → Writing
write_byte chr w =
    let w' = put_char chr w in
    let (line, c) = end_of_screen w'.line w'.console in record w' { line = line; console = c }

unfoldable pub write_loop : List ℕ → Writing → Writing
write_loop [] w = w
write_loop (chr ∷ bytes) w = write_loop bytes (write_byte chr w)

-- The result is `max_unwritten - count`, where the loop leaves `count` at 0.
unfoldable pub write_console : List ℕ → Console → ℕ × Console
write_console bytes c =
    let f = c.frame_index in
    let w = write_loop bytes (record { line = c.line f; cell = c.cell f; console = c }) in
    (
      length bytes,
      record (w.console) {
        line = update w.console.line f w.line;
        cell = update w.console.cell f w.cell;
      },
    )
