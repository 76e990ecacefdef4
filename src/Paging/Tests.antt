-- ===== src/Paging/Tests.antt =====
-- The paging theorems on a pool of four pages, of which the first is taken.
use dunkos.Common.{
  ℕ, ◌+◌, ◌*◌, ◌<◌, ◌≢◌, some, ◌≡◌, ◌⊎◌, inl, inr, refl, arith, ◌==◌, if◌then◌else◌,
}
use dunkos.Bitmap.{bitmap_test, bitmap_scan_and_flip, bitmap_all, bitmap_scan}
use dunkos.Paging.Defs.{PagePool, Pools, page_size, phys_base, page_pool_alloc}
use dunkos.Paging.Defs.{page_pool_free, page_pool_reserve, phys_to_kernel}
use dunkos.Paging.Reserve.{marked, reserve-alloc}
use dunkos.Paging.Pool.{FitsSpace, IsAllocated, NoneFree, alloc-IsAllocated, free-alloc}

abbrev pool : PagePool
pool = record {
  pages = 3;
  occupancy_map = record { bitcount = 4; bufsize = 4; elems = λ i. if i == 0 then 1 else 0 };
  base = phys_base;
}

abbrev pools : Pools
pools = record { kernel_pool = pool; user_pool = pool }

abbrev claimed : PagePool
claimed = (page_pool_alloc pool 2).1

pool-FitsSpace : FitsSpace pool
pool-FitsSpace = (omega arith, omega arith, omega arith)

alloc-IsAllocated_example :
    let (page, p') = page_pool_alloc pool 2 in IsAllocated pool 2 page p' ⊎ NoneFree pool 2 page p'
alloc-IsAllocated_example = alloc-IsAllocated pool 2 pool-FitsSpace

pool-page_1 : (page_pool_alloc pool 2).0 ≡ phys_base + page_size
unfolding page_pool_alloc bitmap_scan_and_flip
pool-page_1 = refl

claimed-IsAllocated : IsAllocated pool 2 (phys_base + page_size) claimed
claimed-IsAllocated = elim (alloc-IsAllocated pool 2 pool-FitsSpace) [
  | inl a ↦ rw pool-page_1 at a
  | inr (null, same, none) ↦ absurd (omega (arith, null, pool-page_1))
]

free-alloc_example :
    bitmap_test (page_pool_free claimed (phys_base + page_size) 2).occupancy_map 1
    ≡ bitmap_test pool.occupancy_map 1
free-alloc_example =
    free-alloc pool claimed 2 (phys_base + page_size) 1 pool-FitsSpace claimed-IsAllocated

pool-reserved : page_pool_reserve pool page_size ≡ some (marked pool 1)
unfolding page_pool_reserve phys_to_kernel bitmap_all bitmap_scan
pool-reserved = refl

reserve-alloc_example :
    let (page, p') = page_pool_alloc (marked pool 1) 2 in
    (page ≡ 0) ⊎ ((k : ℕ) → k < 2 → page + k * page_size ≢ phys_base + 1 * page_size)
unfolding phys_to_kernel
reserve-alloc_example =
    reserve-alloc pool (marked pool 1) page_size 1 0 2 pool-FitsSpace (omega arith) (omega arith)
      (omega arith) (omega arith) pool-reserved
