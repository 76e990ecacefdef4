-- ===== src/Process/Tests.antt =====
-- A segment of a page and a byte, and the frames of a pool of four pages.
use dunkos.Common.{has, ◌≡◌, arith, true, false, [], ◌+◌, ◌*◌}
use dunkos.Bitmap.{bitmap_create}
use dunkos.LinkedList.Chain.{IsList}
use dunkos.Paging.{PagePool, page_size}
use dunkos.Process.Pages.{frame_to_kernaddr}
use dunkos.Process.Frame.{Frames, frame_at, init_frame_table, frame_pinned}
use dunkos.Process.Frames.{init_frame_table-frames}
use dunkos.Process.Exec.{load_segment}
use dunkos.Process.Segment.{vaddrs, pages_in, page_calls, load_segment-pages}

load_segment-pages_example :
    (load_segment 0x400000 4096 0x200001 true ≡ page_calls (pages_in 0x200001) 0x400000 4096 true)
    × (has 0x600000 (vaddrs (load_segment 0x400000 4096 0x200001 true)) ≡ true)
load_segment-pages_example =
    load_segment-pages 0x400000 4096 0x200001 0x600000 true (omega arith) (omega arith)
      (omega arith) (omega arith)

abbrev pool : PagePool
pool = record { pages = 4; base = 0x100000; occupancy_map = bitmap_create 4 }

-- The frames before init_frame_table.
abbrev raw : Frames
raw = record {
  frame_table = 0;
  links = record { prev = λ p. p; next = λ _. 7; size = λ _. 3 };
  pin = λ _. true;
}

init_frame_table-frames_example :
    let s' = init_frame_table pool 4096 raw in
    IsList s'.links (frame_at s'.frame_table 3) []
    × (frame_pinned (frame_at s'.frame_table 3) s' ≡ false)
    × (frame_to_kernaddr s'.frame_table 0x100000 (frame_at s'.frame_table 3)
        ≡ 0x100000 + 3 * page_size)
init_frame_table-frames_example =
    init_frame_table-frames pool 4096 raw 3 (omega arith) (omega arith) (omega arith)
