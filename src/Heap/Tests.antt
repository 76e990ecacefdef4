-- ===== src/Heap/Tests.antt =====
-- A heap with an arena that has three blocks of 16 bytes in use.
use dunkos.Common.{◌+◌, ◌%◌, ◌<◌, ◌≡◌, refl, arith, false, ◌==◌, word_limit}
use dunkos.Common.{[], ◌∷◌}
use dunkos.LinkedList.{Mem, tail_of, list_init, list_size}
use dunkos.LinkedList.Chain.{IsList}
use dunkos.LinkedList.Insert.{init-IsList}
use dunkos.Paging.{PagePool}
use dunkos.Heap.Defs.{Heap, block_get_arena, blocks_in_arena, kfree}
use dunkos.Heap.Blocks.{kfree-twice}

abbrev no_pool : PagePool
no_pool = record {
  pages = 0;
  occupancy_map = record { bitcount = 0; bufsize = 0; elems = λ _. 0 };
  base = 0;
}

abbrev garbage : Mem
garbage = record { next = λ q. q; prev = λ q. q; size = λ _. 997 }

abbrev small_heap : Heap
small_heap = record {
  descriptors = 4096;
  block_size = λ _. 16;
  arena_size = λ _. 1000;
  arena_desc = λ _. 1;
  free_count = λ _. 997;
  magic = λ _. 0x9A548EED;
  links = list_init 4224 garbage;
  pools = record { kernel_pool = no_pool; user_pool = no_pool };
  memory = λ _. 0;
}

fifth : 5 < blocks_in_arena 64
unfolding blocks_in_arena
fifth = omega arith

in_use : ((small_heap.free_count (block_get_arena 0x400018) + 1) % word_limit == 1000) ≡ false
in_use = refl

empty-IsList : IsList small_heap.links 4224 []
unfolding list_init
empty-IsList = init-IsList garbage 4224

kfree-twice_example :
    ((kfree 0x400018 small_heap).links.prev 0x400018 ≡ 0x400018)
    × ((kfree 0x400018 small_heap).links.prev (tail_of 4224) ≡ 0x400018)
    × (list_size 4224 (kfree 0x400018 small_heap).links ≡ 2)
    × ¬ IsList (kfree 0x400018 small_heap).links 4224 (0x400018 ∷ 0x400018 ∷ [])
kfree-twice_example =
    kfree-twice 0x400018 small_heap [] (0x400018 ∷ 0x400018 ∷ []) refl in_use empty-IsList
      (ground arith) (omega arith)
