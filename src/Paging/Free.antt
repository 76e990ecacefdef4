-- ===== src/Paging/Free.antt =====
-- page_free looks for the page by its physical address in pools that keep virtual ones.
use dunkos.Common.{ℕ, zero, suc, ◌+◌, ◌-◌, ◌/◌, ◌%◌, ◌≤◌, ◌<◌, ◌≡◌, refl, arith}
use dunkos.Common.{Bool, false, word_limit}
use dunkos.Bitmap.{Bitmap, bitmap_set}
use dunkos.Paging.Defs.{PagePool, Pools, phys_base, phys_size, page_size, page_free}

-- A range that begins behind a bitmap's end is no range of it.
set_behind :
    (bm : Bitmap) (start n : ℕ) (b : Bool) → bm.bitcount ≤ start → bitmap_set bm start n b ≡ bm
unfolding bitmap_set
set_behind bm start zero b h = refl
set_behind bm start (suc n) b h = ground arith

-- A pool of pages in the kernel's part of the address space, with a map of at most as many bits as
-- the machine has pages.
abbrev pub IsHigh : PagePool → Type 0
IsHigh p =
    (phys_base ≤ p.base)
    × (p.base < phys_base + phys_size)
    × (p.occupancy_map.bitcount ≤ phys_size / page_size)

-- With both pools in the kernel's part of the address space and maps of no more bits than the
-- machine has pages, page_free of any page of that part leaves both pools as they were.
pub free_nothing :
    (s : Pools) (page : ℕ)
    → IsHigh s.kernel_pool
    → IsHigh s.user_pool
    → phys_base ≤ page
    → page < phys_base + phys_size
    → page_free page s ≡ s
unfolding page_free
free_nothing s page (klo, khi, kc) (ulo, uhi, uc) lo hi = ground (
  arith,
  set_behind s.user_pool.occupancy_map
      (((page + word_limit - phys_base) % word_limit + word_limit - s.user_pool.base)
        % word_limit
        / page_size)
      1 false,
)
