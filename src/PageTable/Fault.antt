-- ===== src/PageTable/Fault.antt =====
-- What a page fault does.
use dunkos.Common.{ℕ}
use dunkos.Paging.{Pools, page_pool_alloc}

-- The page that page_allocate takes from the kernel's pool.
abbrev pub fresh_page : Pools → ℕ
fresh_page s = (page_pool_alloc s.kernel_pool 1).0
