-- ===== src/Process/Frames.antt =====
-- The frames after init_frame_table.
use dunkos.Common.{
  ℕ, zero, suc, ◌+◌, ◌-◌, ◌*◌, ◌/◌, ◌%◌, ◌<◌, ◌≡◌, ◌≢◌, refl, arith, sym, inl, inr, false,
}
use dunkos.Common.{◌==◌, Bool-cases, [], ◌∈◌, ◌∉◌, word_limit}
use mathlib.Core.Path.{subst}
use dunkos.LinkedList.{Mem, list_init}
use dunkos.LinkedList.Chain.{footprint, IsList, IsList-frame}
use dunkos.LinkedList.Insert.{init-IsList}
use dunkos.Hashtable.Init.{init-SameOutside}
use dunkos.Paging.{PagePool, page_size}
use dunkos.Process.Pages.{frame_to_kernaddr}
use dunkos.Process.Frame.{Frames, frame_at, frame_loop, init_frame_table, frame_pinned}

-- The sentinels of the aliases of two frames are apart.
frames_apart :
    (table i j q : ℕ)
    → i ≢ j
    → q ∈ footprint (frame_at table i) []
    → q ∉ footprint (frame_at table j) []
frames_apart table i j q ne h = ground arith

frame_loop-IsList :
    (table left i : ℕ) (m : Mem)
    → ((j : ℕ) → j < i → IsList m (frame_at table j) [])
    → (j : ℕ) → j < i + left
    → IsList (frame_loop table left i m) (frame_at table j) []
unfolding frame_loop
frame_loop-IsList table zero i m done j h = done j (omega arith)
frame_loop-IsList table (suc left) i m done j h =
    frame_loop-IsList table left (i + 1) (list_init (frame_at table i) m) more j (omega arith)
  where
    more : (k : ℕ) → k < i + 1 → IsList (list_init (frame_at table i) m) (frame_at table k) []
    more k lt = elim (Bool-cases (k == i)) [
      | inl e ↦
          let e' : k ≡ i = ground arith in
          subst (λ n. IsList (list_init (frame_at table i) m) (frame_at table n) []) (sym e')
            (init-IsList m (frame_at table i))
      | inr e ↦
          IsList-frame [] (footprint (frame_at table i) []) (init-SameOutside m (frame_at table i))
            (ground arith) (λ q hq. frames_apart table k i q (ground arith) hq)
            (done k (ground arith))
    ]

-- The frame with the number `i` stands for the page with that number in the user pool.
pub kernaddr-frame_at :
    (table base i : ℕ)
    → frame_at table i < word_limit
    → table < word_limit
    → frame_to_kernaddr table base (frame_at table i) ≡ (base + i * page_size) % word_limit
unfolding frame_to_kernaddr
kernaddr-frame_at table base i small ok =
    let number : (frame_at table i + (word_limit - table)) % word_limit / 48 ≡ i =
      omega (arith, small, ok) in
    rw number refl

-- If the table of the frames ends before the last byte of the address space, then init_frame_table
-- gives every page of the user pool a frame that has no aliases and is not pinned, and the frame
-- stands for that page.
pub init_frame_table-frames :
    (user_pool : PagePool) (block : ℕ) (s : Frames) (i : ℕ)
    → frame_at block user_pool.pages < word_limit
    → user_pool.base + user_pool.pages * page_size < word_limit
    → i < user_pool.pages
    → let s' = init_frame_table user_pool block s in
      IsList s'.links (frame_at s'.frame_table i) []
      × (frame_pinned (frame_at s'.frame_table i) s' ≡ false)
      × (frame_to_kernaddr s'.frame_table user_pool.base (frame_at s'.frame_table i)
          ≡ user_pool.base + i * page_size)
unfolding init_frame_table frame_pinned
init_frame_table-frames user_pool block s i room pages h = (
  frame_loop-IsList block user_pool.pages 0 _ (λ j lt. absurd (omega arith)) i (omega arith),
  ground (arith, room, h),
  rw (kernaddr-frame_at block user_pool.base i (omega arith) (omega arith)) (omega arith),
)
