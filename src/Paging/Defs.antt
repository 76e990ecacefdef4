-- ===== src/Paging/Defs.antt =====
-- The page pools of paging.c. Pointers are numbers below 2 ^ 64; the occupancy map lies in the first
-- page that a pool is given.
use Prim.Native.Nat.{bit_and}
use dunkos.Common.{ℕ, ◌+◌, ◌-◌, ◌*◌, ◌/◌, ◌%◌, Bool, true, false, not, ◌&&◌, Option, none, some}
use dunkos.Common.{◌==◌, ltb, leb, if◌then◌else◌, word_limit}
use dunkos.Bitmap.{Bitmap, bitmap_npos, bitmap_create_buffer, bitmap_set, bitmap_all}
use dunkos.Bitmap.{bitmap_scan_and_flip}
use dunkos.Strings.{Bytes, memset}

abbrev pub page_size : ℕ
page_size = 0x200000

abbrev pub phys_base : ℕ
phys_base = 0xFFFF800000000000

abbrev pub phys_size : ℕ
phys_size = 0x100000000

abbrev pub add_word : ℕ → ℕ → ℕ
add_word a b = (a + b) % word_limit

abbrev pub sub_word : ℕ → ℕ → ℕ
sub_word a b = (a + word_limit - b) % word_limit

unfoldable pub phys_to_kernel : ℕ → ℕ
phys_to_kernel frame = add_word frame phys_base

unfoldable pub kernel_to_phys : ℕ → ℕ
kernel_to_phys kernel = sub_word kernel phys_base

-- `~PAGESIZE + 1`, sign-extended to 64 bits
abbrev pub page_mask : ℕ
page_mask = word_limit - page_size

unfoldable pub page_round_down : ℕ → ℕ
page_round_down addr = bit_and addr page_mask

unfoldable pub page_round_up : ℕ → ℕ
page_round_up addr = add_word (bit_and addr page_mask) page_size

pub record PagePool : Type 0 where
  pub pages : ℕ
  pub occupancy_map : Bitmap
  pub base : ℕ

-- `words` is what the memory at `base` holds. The number of pages for the map is computed from the
-- `pages` that the pool had before.
unfoldable pub page_pool_init : PagePool → ℕ → ℕ → (ℕ → ℕ) → PagePool
unfolding page_round_up bitmap_create_buffer
page_pool_init p pages base words =
    let bitmap_pages = page_round_up p.pages / page_size in
    record {
      pages = sub_word pages bitmap_pages;
      occupancy_map = bitmap_create_buffer pages words pages;
      base = add_word base (bitmap_pages * page_size);
    }

-- The page's address, `NULL` if there is no run of free pages.
unfoldable pub page_pool_alloc : PagePool → ℕ → ℕ × PagePool
page_pool_alloc p npages =
    let (pg_no, map) = bitmap_scan_and_flip p.occupancy_map 0 npages false in
    (
      if pg_no == bitmap_npos then 0 else add_word p.base (pg_no * page_size),
      record p { occupancy_map = map },
    )

-- `none` is a failed assertion.
unfoldable pub page_pool_reserve : PagePool → ℕ → Option PagePool
unfolding phys_to_kernel
page_pool_reserve p ph =
    let pgnum = sub_word (phys_to_kernel ph / page_size) (p.base / page_size) in
    if not (bitmap_all p.occupancy_map pgnum 1 true)
    then some (record p { occupancy_map = bitmap_set p.occupancy_map pgnum 1 true })
    else none

unfoldable pub page_pool_free : PagePool → ℕ → ℕ → PagePool
page_pool_free p pg npages =
    let pg_no = sub_word pg p.base / page_size in
    record p { occupancy_map = bitmap_set p.occupancy_map pg_no npages false }

unfoldable pub page_pool_contains : PagePool → ℕ → Bool
page_pool_contains pool p = leb pool.base p && ltb p (add_word pool.base (pool.pages * page_size))

-- The two pools of the file.
pub record Pools : Type 0 where
  pub kernel_pool : PagePool
  pub user_pool : PagePool

-- PAL_ZERO is 1 and PAL_USER is 2, so the bits of the flags can be tested apart.
abbrev pub pal_zero : ℕ
pal_zero = 1

abbrev pub pal_user : ℕ
pal_user = 2

abbrev pub flag : ℕ → ℕ → Bool
flag flags bit = not (bit_and flags bit == 0)

-- The pages, the pools and the memory with the pages cleared, if that was asked for.
unfoldable pub page_allocate_multiple : ℕ → ℕ → Pools → Bytes → ℕ × Pools × Bytes
page_allocate_multiple flags pages s mem =
    let (page, pool) =
      page_pool_alloc (if flag flags pal_user then s.user_pool else s.kernel_pool) pages in
    (
      page,
      if flag flags pal_user
          then record s { user_pool = pool }
          else record s { kernel_pool = pool },
      if not (page == 0) && flag flags pal_zero then memset mem page 0 (page_size * pages) else mem,
    )

unfoldable pub page_allocate : ℕ → Pools → Bytes → ℕ × Pools × Bytes
page_allocate flags s mem =
    let (page, pool) =
      page_pool_alloc (if flag flags pal_user then s.user_pool else s.kernel_pool) 1 in
    (
      page,
      if flag flags pal_user
          then record s { user_pool = pool }
          else record s { kernel_pool = pool },
      if not (page == 0) && flag flags pal_zero then memset mem page 0 page_size else mem,
    )

unfoldable pub page_free : ℕ → Pools → Pools
unfolding kernel_to_phys page_pool_contains page_pool_free
page_free page s =
    let frame = kernel_to_phys page in
    if page_pool_contains s.kernel_pool frame
    then record s { kernel_pool = page_pool_free s.kernel_pool frame 1 }
    else record s { user_pool = page_pool_free s.user_pool frame 1 }

-- The sizes and places of the pools that `init_paging` makes of the memory behind the kernel; the
-- words at the two places are what memory holds there.
unfoldable pub init_pools : ℕ → Pools → (ℕ → ℕ) → (ℕ → ℕ) → Pools
unfolding phys_to_kernel page_pool_init
init_pools reserved_end s kernel_words user_words =
    let total_pages = (phys_size - reserved_end) / page_size in
    let user_pages = total_pages / 2 in
    let kernel_pages = total_pages - user_pages in
    let base = phys_to_kernel reserved_end in
    record {
      kernel_pool = page_pool_init s.kernel_pool kernel_pages base kernel_words;
      user_pool =
          page_pool_init s.user_pool user_pages (add_word base (kernel_pages * page_size))
            user_words;
    }
