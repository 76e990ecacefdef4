-- ===== src/Console/Write.antt =====
-- write_console: plain text on one line, text past the end of a line, and the last line.
use dunkos.Common.{ℕ, ◌+◌, ◌-◌, ◌*◌, ◌/◌, ◌%◌, ◌≤◌, ◌<◌, ◌≡◌, refl, ◌≢◌, ◌∙◌, arith}
use dunkos.Common.{true, ◌&&◌, ◌==◌, ltb, leb, if◌then◌else◌, update}
use dunkos.Common.{List, [], ◌∷◌, length, get_or, get_or-cons, get_or_first}
use dunkos.Console.Defs.{
  Console, Writing, put_char, put_default, end_of_screen, write_byte, write_loop,
}
use dunkos.Console.Defs.{write_console, scroll_down}
use dunkos.Console.Scroll.{scroll_down_lem}

-- No byte is a tab, a line feed or a carriage return.
abbrev pub IsPlain : List ℕ → Type 0
IsPlain [] = Unit
IsPlain (b ∷ bs) = (b ≢ b'\t') × (b ≢ b'\n') × (b ≢ b'\r') × IsPlain bs

put_plain :
    (b : ℕ) (w : Writing)
    → b ≢ b'\t'
    → b ≢ b'\n'
    → b ≢ b'\r'
    → put_char b w ≡ put_default (w.line * 160 + w.cell) b w
unfolding put_char
put_plain b w t n r = ground arith

no_end : (l : ℕ) (c : Console) → l < 50 → end_of_screen l c ≡ (l, c)
unfolding end_of_screen
no_end l c h = ground arith

-- A plain byte on a line of the screen is the default case and no end of the screen.
plain_byte :
    (b : ℕ) (w : Writing)
    → b ≢ b'\t'
    → b ≢ b'\n'
    → b ≢ b'\r'
    → w.line < 50
    → write_byte b w ≡ put_default (w.line * 160 + w.cell) b w
unfolding write_byte put_default
plain_byte b w t n r h = rw (put_plain b w t n r, no_end w.line _ h)

-- The local cell moves on by two for every plain byte and the local line stays, also past the end of
-- the line: what `newline` does to the frame reaches neither.
plain_loop :
    (bs : List ℕ) (w : Writing)
    → IsPlain bs
    → w.line < 50
    → ((write_loop bs w).line ≡ w.line) × ((write_loop bs w).cell ≡ w.cell + 2 * length bs)
unfolding write_loop put_default
plain_loop [] w p h = (refl, omega arith)
plain_loop (b ∷ bs) w (t, n, r, p) h =
    let w' = put_default (w.line * 160 + w.cell) b w in
    let (line, cell) = plain_loop bs w' p h in
    rw (plain_byte b w t n r h, write_loop) (line, omega (arith, cell))

-- Writing plain text says that all of it is written, leaves the frame's line, and moves the frame's
-- cell on by two for every byte, however far that is: text never wraps to the next line.
pub write_plain :
    (bs : List ℕ) (c : Console)
    → IsPlain bs
    → c.line c.frame_index < 50
    → let (n, c') = write_console bs c in
      (n ≡ length bs)
      × (c'.line c.frame_index ≡ c.line c.frame_index)
      × (c'.cell c.frame_index ≡ c.cell c.frame_index + 2 * length bs)
unfolding write_console
write_plain bs c p h =
    let (line, cell) =
      plain_loop bs
        (record { line = c.line c.frame_index; cell = c.cell c.frame_index; console = c }) p h in
    (refl, ground (arith, line), ground (arith, cell))

-- The bytes of a text with their attribute, from `start` on.
abbrev pub shown : List ℕ → ℕ → (ℕ → ℕ) → ℕ → ℕ
shown bs start vga q =
    if leb start q && ltb q (start + 2 * length bs)
    then (if (q - start) % 2 == 0 then get_or bs ((q - start) / 2) 0 else 0x0F)
    else vga q

shown-cons :
    (b : ℕ) (bs : List ℕ) (start : ℕ) (vga : ℕ → ℕ) (q : ℕ)
    → shown bs (start + 2) (update (update vga start b) (start + 1) 0x0F) q
      ≡ shown (b ∷ bs) start vga q
shown-cons b bs start vga q =
    let i = (q - start) / 2 in
    ground (arith, get_or-cons b bs i 0, get_or_first b bs i 0, next_half)
  where
    next_half : start + 2 ≤ q → (q - start) / 2 - 1 ≡ (q - (start + 2)) / 2
    next_half h = omega arith

fitting_loop :
    (bs : List ℕ) (w : Writing) (q : ℕ)
    → IsPlain bs
    → w.line < 50
    → w.cell + 2 * length bs < 160
    → (write_loop bs w).console.vga_buffer q
      ≡ shown bs (w.line * 160 + w.cell) w.console.vga_buffer q
unfolding write_loop put_default
fitting_loop [] w q p h fits = ground arith
fitting_loop (b ∷ bs) w q (t, n, r, p) h fits =
    rw (plain_byte b w t n r h, write_loop)
      (ground (
        arith,
        fitting_loop bs (put_default (w.line * 160 + w.cell) b w) q p h (omega arith),
        shown-cons b bs (w.line * 160 + w.cell) w.console.vga_buffer q,
        next_start,
      ))
  where
    next_start : w.line * 160 + (w.cell + 2) ≡ w.line * 160 + w.cell + 2
    next_start = omega arith

-- Plain text that ends before the end of its line stands on the screen from the frame's place on,
-- byte by byte with the default attribute, and no other byte of the screen's buffer has changed. (The
-- text has no tab, line feed or carriage return, and the frame's line is one of the screen.)
pub write_fitting :
    (bs : List ℕ) (c : Console) (q : ℕ)
    → IsPlain bs
    → c.line c.frame_index < 50
    → c.cell c.frame_index + 2 * length bs < 160
    → (write_console bs c).1.vga_buffer q
      ≡ shown bs (c.line c.frame_index * 160 + c.cell c.frame_index) c.vga_buffer q
unfolding write_console
write_fitting bs c q p h fits =
    fitting_loop bs
      (record { line = c.line c.frame_index; cell = c.cell c.frame_index; console = c }) q p h fits

feed_last :
    (w : Writing)
    → w.line ≡ 49
    → w.console.enable_scrolling ≡ true
    → write_byte b'\n' w ≡ record { line = 50; cell = 0; console = scroll_down w.console }
unfolding write_byte put_char end_of_screen
feed_last w last on = ground arith

scroll-enable : (c : Console) → (scroll_down c).enable_scrolling ≡ c.enable_scrolling
unfolding scroll_down
scroll-enable c = refl

plain_behind :
    (b : ℕ) (c : Console)
    → IsPlain (b ∷ [])
    → c.enable_scrolling ≡ true
    → (write_byte b (record { line = 50; cell = 0; console = c })).console.vga_buffer 8000 ≡ b
unfolding write_byte put_default end_of_screen
plain_behind b c (t, n, r, p) on =
    let vga = update (update c.vga_buffer 8000 b) 8001 0x0F in
    rw (put_plain b (record { line = 50; cell = 0; console = c }) t n r)
      (ground (arith, scroll_down_lem (record c { vga_buffer = vga }) 8000))

-- With scrolling on, a line feed on the last line leaves the local line behind the screen, and the
-- next plain byte is written at offset 8000, the first byte after the buffer.
pub write_behind_screen :
    (b : ℕ) (c : Console)
    → IsPlain (b ∷ [])
    → c.line c.frame_index ≡ 49
    → c.enable_scrolling ≡ true
    → (write_console (b'\n' ∷ b ∷ []) c).1.vga_buffer 8000 ≡ b
unfolding write_console write_loop
write_behind_screen b c p last on =
    let f = c.frame_index in
    let w : Writing = record { line = c.line f; cell = c.cell f; console = c } in
    rw (feed_last w last on) (plain_behind b (scroll_down c) p (scroll-enable c ∙ on))
