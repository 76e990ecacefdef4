-- ===== src/PageTable/Install.antt =====
-- The parts of paging.c that use page tables: init_paging and the handler of page faults.
use Prim.Native.Nat.{bit_and}
use dunkos.Common.{ℕ, zero, suc, ◌+◌, ◌-◌, ◌*◌, ◌/◌, ◌==◌, if◌then◌else◌}
use dunkos.Strings.{Bytes}
use dunkos.Paging.{Pools, page_size, phys_size, phys_to_kernel, kernel_to_phys, page_round_down}
use dunkos.Paging.{add_word, init_pools, page_allocate}
use dunkos.Interrupts.{InterruptTables, installed, install_interrupt_handler}
use dunkos.PageTable.Defs.{Tables, Words, pml4_map_address, pml4_map_address_buffer}

-- `for (pgno = 0; pgno < total_pages; ++pgno)`, from `pgno` on
unfoldable pub map_pages_loop : ℕ → ℕ → ℕ → ℕ → Tables → Tables
unfolding pml4_map_address_buffer kernel_to_phys
map_pages_loop zero pgno pml4 base t = t
map_pages_loop (suc left) pgno pml4 base t =
    let kernaddr = add_word base (pgno * page_size) in
    map_pages_loop left (pgno + 1) pml4 base
      (pml4_map_address_buffer pml4 kernaddr (kernel_to_phys kernaddr) t)

-- `reserved_end` is the end of the kernel, `handler` the address of page_fault, `pml4` what
-- get_default_pml4 returns, and the words are what memory holds at the two pools.
unfoldable pub init_paging :
    ℕ
    → ℕ
    → ℕ
    → (ℕ → ℕ)
    → (ℕ → ℕ)
    → Pools
    → Tables
    → InterruptTables
    → Pools × Tables × InterruptTables
unfolding map_pages_loop phys_to_kernel init_pools install_interrupt_handler
init_paging reserved_end handler pml4 kernel_words user_words s t i =
    let total_pages = (phys_size - reserved_end) / page_size in
    (
      init_pools reserved_end s kernel_words user_words,
      map_pages_loop total_pages 0 pml4 (phys_to_kernel reserved_end) t,
      install_interrupt_handler 14 (installed handler) i,
    )

-- For the error code and the address of the fault; `fresh` is the table that pml4_map_address may
-- take. The pools, the tables and memory after it.
unfoldable pub page_fault : ℕ → ℕ → ℕ → ℕ → Pools → Words → Bytes → Pools × Words × Bytes
unfolding page_allocate pml4_map_address page_round_down
page_fault error faultaddr pml4 fresh s words mem =
    if bit_and error 1 == 0
    then (let (page, s', mem') = page_allocate 0 s mem in
        (s', pml4_map_address fresh pml4 (page_round_down faultaddr) page words, mem'))
    else (s, words, mem)
