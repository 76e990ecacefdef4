-- ===== src/PageTable/Tests.antt =====
-- The page table theorems on the tables of two addresses, and on tables that are still missing.
use dunkos.Common.{ℕ, ◌+◌, ◌≡◌, refl, arith, false}
use dunkos.Common.{◌==◌, update, [], if◌then◌else◌}
use dunkos.Paging.{PagePool, Pools, phys_base}
use dunkos.PageTable.Defs.{Words, Tables, Copying, pml4_offset, pdp_offset, pgd_offset, table_of}
use dunkos.PageTable.Defs.{pml4_compute_ptloc, pml4_map_address, pml4_map_address_buffer}
use dunkos.PageTable.Map.{IsApart, first_entry, second_entry, map_address-translate}
use dunkos.PageTable.Walk.{IsTableEntry, walk_lowest, translate}
use dunkos.Common.{◌%◌, ◌^◌, some}
use dunkos.PageTable.Boot.{IsPool, IsPath, map_buffer-translate}

-- The first table is at 0x1000, the second at 0x2000; it leads to tables at 0x3000 and 0x4000.
abbrev two_tables : Words
two_tables = update (update (update (λ _. 0) 0x1000 0x2003) 0x2008 0x3003) 0x2000 0x4003

abbrev here : ℕ
here = 0x40200000

abbrev there : ℕ
there = 0x600000

own_entry-IsApart : IsApart two_tables 0x1000 here here
unfolding pml4_compute_ptloc pml4_offset pdp_offset pgd_offset table_of
own_entry-IsApart = record { first = refl; second = refl }

other_entry-IsApart : IsApart two_tables 0x1000 here there
unfolding pml4_compute_ptloc pml4_offset pdp_offset pgd_offset table_of
other_entry-IsApart = record { first = refl; second = refl }

here_present : (table_of (two_tables (first_entry 0x1000 here)) == 0) ≡ false
unfolding table_of pml4_offset
here_present = refl

here_entry : IsTableEntry (two_tables (first_entry 0x1000 here))
unfolding pml4_offset
here_entry = record { present = refl; small = refl; low = omega arith }

here_lower : IsTableEntry (two_tables (second_entry 0x1000 here two_tables))
unfolding pml4_offset pdp_offset table_of
here_lower = record { present = refl; small = refl; low = omega arith }

map_address-translate_example :
    let mem' = pml4_map_address 0x9000 0x1000 here 0x7000 two_tables in
    (translate 0x1000 here mem' ≡ walk_lowest 0x7000 here mem')
    × (mem' (pml4_compute_ptloc 0x1000 there mem') ≡ 0)
unfolding pml4_compute_ptloc pml4_offset pdp_offset pgd_offset table_of
map_address-translate_example =
    map_address-translate 0x9000 0x1000 here there 0x7000 two_tables here_entry here_present
      here_lower own_entry-IsApart other_entry-IsApart refl

abbrev empty_pool : Tables
empty_pool = record { base_pt_pool = 0x2000; mem = λ _. 0 }

empty_pool-IsPool : IsPool empty_pool
empty_pool-IsPool = record {
  aligned = refl;
  low = omega arith;
  room = omega arith;
  zeroed = λ q h. refl;
}

empty_pool-IsPath : IsPath empty_pool 0x1000 here
unfolding table_of
empty_pool-IsPath = record {
  root = (refl, omega arith);
  upper = (refl, omega arith);
  upper_entry = λ e. absurd (omega (arith, e));
  upper_apart = λ e. omega (arith, e);
  lower = (refl, omega arith);
  lower_entry = λ e. absurd (omega (arith, e));
  lower_apart = λ e. absurd (omega (arith, e));
}

map_buffer-translate_example :
    translate 0x1000 (here + 77) (pml4_map_address_buffer 0x1000 here 0x600000 empty_pool).mem
    ≡ some (0x600000 + (here + 77) % 2 ^ 21)
map_buffer-translate_example =
    map_buffer-translate empty_pool 0x1000 here (here + 77) 0x600000 empty_pool-IsPool
      empty_pool-IsPath refl (omega arith) refl

abbrev one_page : Copying
one_page = record { heap = []; mem = update (λ _. 0) 0x2008 0x5003 }

abbrev kernel : PagePool
kernel = record {
  pages = 3;
  occupancy_map = record { bitcount = 4; bufsize = 4; elems = λ i. if i == 0 then 1 else 0 };
  base = phys_base;
}

abbrev pools : Pools
pools = record { kernel_pool = kernel; user_pool = kernel }
