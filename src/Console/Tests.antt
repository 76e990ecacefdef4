-- ===== src/Console/Tests.antt =====
-- The console theorem on a console with the cursor on line 3.
use dunkos.Common.{◌≡◌, arith, true, [], ◌∷◌}
use dunkos.Console.Defs.{Console, write_console}
use dunkos.Console.Write.{write_fitting}

abbrev screen : Console
screen = record {
  line = λ _. 3;
  cell = λ _. 4;
  frame_index = 0;
  enable_scrolling = true;
  vga_buffer = λ q. q;
}

write_fitting_example : (write_console (104 ∷ 105 ∷ []) screen).1.vga_buffer 486 ≡ 105
write_fitting_example =
    write_fitting (104 ∷ 105 ∷ []) screen 486
      (omega arith, omega arith, omega arith, (omega arith, omega arith, omega arith, tt))
      (omega arith) (omega arith)
