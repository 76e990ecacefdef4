-- ===== src/Bitmap/Bounds.antt =====
-- Which words a bitmap of a given size needs, against what bitmap_create allocates.
use dunkos.Common.{ℕ, ◌+◌, ◌-◌, ◌*◌, ◌%◌, ◌≤◌, ◌<◌, ◌≡◌, ◌⊎◌, ◌↔◌, arith}
use dunkos.Bitmap.Defs.{bitmap_bufsize, bit_to_elem}

-- For a bitmap of at least one bit, the access to the word of every bit stays inside the buffer
-- that bitmap_bufsize counts exactly when the number of bits is a multiple of 64 or exceeds one by
-- more than 56.
pub elem_in_buffer :
    (bits : ℕ)
    → 0 < bits
    → ((i : ℕ) → i < bits → 8 * bit_to_elem i + 8 ≤ bitmap_bufsize bits)
      ↔ ((bits % 64 ≡ 0) ⊎ (56 < bits % 64))
unfolding bitmap_bufsize bit_to_elem
elem_in_buffer bits h = (λ all. ground (arith, all (bits - 1)), λ fits i lt. ground arith)
