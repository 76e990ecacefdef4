-- ===== src/Process/Frame.antt =====
-- The table of the frames, kern/lib/mem/frame.c and the pins of kern/lib/include/kern/vmmgmt.h. A frame
-- is 48 bytes: its list of aliases, and 40 bytes into it the pin.
use dunkos.Common.{ℕ, zero, suc, ◌+◌, ◌*◌, ◌%◌, Bool, true, false, ◌&&◌, leb, ltb}
use dunkos.Common.{if◌then◌else◌, update, word_limit}
use dunkos.LinkedList.{Mem, list_init}
use dunkos.Paging.{PagePool}
use dunkos.Process.Life.{calloc_links}

-- The `pin` of a frame is named by the frame's address.
pub record Frames : Type 0 where
  pub frame_table : ℕ
  pub links : Mem
  pub pin : ℕ → Bool

abbrev pub frame_size : ℕ
frame_size = 48

abbrev pub frame_at : ℕ → ℕ → ℕ
frame_at frame_table i = frame_table + frame_size * i

-- `while (f != frame_table + user_pages)`, with `left` frames left from the one with the number `i`
-- on
unfoldable pub frame_loop : ℕ → ℕ → ℕ → Mem → Mem
unfolding list_init
frame_loop frame_table zero i m = m
frame_loop frame_table (suc left) i m =
    frame_loop frame_table left (i + 1) (list_init (frame_at frame_table i) m)

-- `block` is what kcalloc returns.
unfoldable pub init_frame_table : PagePool → ℕ → Frames → Frames
unfolding calloc_links frame_loop
init_frame_table user_pool block s =
    let user_pages = user_pool.pages in
    let bytes = user_pages * frame_size % word_limit in
    record s {
      frame_table = block;
      links = frame_loop block user_pages 0 (calloc_links block bytes s.links);
      pin = λ f. if leb block f && ltb f (block + bytes) then false else s.pin f;
    }

unfoldable pub frame_pin : ℕ → Frames → Frames
frame_pin f s = record s { pin = update s.pin f true }

unfoldable pub frame_unpin : ℕ → Frames → Frames
frame_unpin f s = record s { pin = update s.pin f false }

unfoldable pub frame_pinned : ℕ → Frames → Bool
frame_pinned f s = s.pin f
