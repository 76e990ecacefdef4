-- ===== src/Heap/Defs.antt =====
-- The functions of heap.c on the page pools and lists. A descriptor is named by its index, an arena and
-- a block by their addresses; a block's `free_elem` is at its address. The links of each block are kept
-- apart from those of its neighbours, so the model is about blocks of at least 16 bytes: those of 8
-- bytes overlap. The locks change nothing that is modelled.
use dunkos.Common.{ℕ, zero, suc, ◌+◌, ◌-◌, ◌*◌, ◌/◌, ◌%◌, ◌^◌, true, false, Option, none, some}
use dunkos.Common.{◌==◌, leb, if◌then◌else◌, update, word_limit}
use dunkos.Strings.{Bytes, memset}
use dunkos.LinkedList.{Mem, list_init, list_empty, list_push_back, list_pop_front, list_remove}
use dunkos.Paging.{Pools, page_size, pal_zero, page_allocate, page_free}

abbrev pub arena_magic : ℕ
arena_magic = 0x9A548EED

-- `sizeof(struct heap_arena)`
abbrev pub arena_header_size : ℕ
arena_header_size = 24

-- The number of descriptors.
abbrev pub desc_count : ℕ
desc_count = 16

-- `descriptors` is the address of the array; the fields of the descriptors are by index, those of the
-- arenas by address.
pub record Heap : Type 0 where
  pub descriptors : ℕ
  pub block_size : ℕ → ℕ
  pub arena_size : ℕ → ℕ
  pub arena_desc : ℕ → ℕ
  pub free_count : ℕ → ℕ
  pub magic : ℕ → ℕ
  pub links : Mem
  pub pools : Pools
  pub memory : Bytes

-- `&d->free_list`: a descriptor has 112 bytes, and its list is 16 bytes into it.
abbrev pub free_list : Heap → ℕ → ℕ
free_list s d = s.descriptors + 112 * d + 16

unfoldable pub block_get_arena : ℕ → ℕ
block_get_arena b = b / page_size * page_size

-- For the block size of the arena's descriptor.
unfoldable pub arena_get_block : ℕ → ℕ → ℕ → ℕ
arena_get_block a i block_size = (a + arena_header_size + i * block_size) % word_limit

-- The quotient of init_heap.
unfoldable pub blocks_in_arena : ℕ → ℕ
blocks_in_arena block_size = (page_size - arena_header_size) / block_size

-- The loop of init_heap from descriptor `i` on.
unfoldable pub init_desc_loop : ℕ → ℕ → Heap → Heap
unfolding blocks_in_arena list_init
init_desc_loop zero i s = s
init_desc_loop (suc left) i s =
    let size = 8 * 2 ^ i in
    init_desc_loop left (i + 1) (record s {
      block_size = update s.block_size i size;
      arena_size = update s.arena_size i (blocks_in_arena size);
      links = list_init (free_list s i) s.links;
    })

unfoldable pub init_heap : Heap → Heap
unfolding init_desc_loop
init_heap s = init_desc_loop desc_count 0 s

-- The search of kmalloc from descriptor `i` on, with `left` to go.
unfoldable pub class_loop : ℕ → ℕ → ℕ → (ℕ → ℕ) → ℕ
class_loop zero i size block_size = i
class_loop (suc left) i size block_size = elim (leb size (block_size i)) [
  | true ↦ i
  | false ↦ class_loop left (i + 1) size block_size
]

-- The loop that puts the blocks of a new arena into the list, from block `i` on.
unfoldable pub fill_loop : ℕ → ℕ → ℕ → ℕ → ℕ → Mem → Mem
unfolding arena_get_block list_push_back
fill_loop zero i a list block_size m = m
fill_loop (suc left) i a list block_size m =
    fill_loop left (i + 1) a list block_size
      (list_push_back list (arena_get_block a i block_size) m)

-- `if (list_empty(&d->free_list))`
unfoldable pub add_arena : ℕ → Heap → Heap
unfolding list_empty page_allocate fill_loop
add_arena d s =
    let (a, pools, memory) = page_allocate pal_zero s.pools s.memory in
    if list_empty (free_list s d) s.links
    then record s {
      pools = pools;
      memory = memory;
      arena_desc = update s.arena_desc a d;
      free_count = update s.free_count a (s.arena_size d);
      magic = update s.magic a arena_magic;
      links = fill_loop (s.arena_size d) 0 a (free_list s d) (s.block_size d) s.links;
    }
    else s

-- The block that is taken is cleared, with its links. `none` is the failed assertion.
unfoldable pub take_block : ℕ → Heap → Option (ℕ × Heap)
unfolding list_pop_front memset block_get_arena
take_block d s =
    let (b, links) = list_pop_front (free_list s d) s.links in
    let a = block_get_arena b in
    if s.magic a == arena_magic
    then some (
      b,
      record s {
        links = record links { next = update links.next b 0; prev = update links.prev b 0 };
        memory = memset s.memory b 0 (s.block_size d);
        free_count = update s.free_count a ((s.free_count a + (word_limit - 1)) % word_limit);
      },
    )
    else none

-- `stale` is what the variable `b` holds, which is returned as it is for a size that no descriptor
-- has.
unfoldable pub kmalloc : ℕ → ℕ → Heap → Option (ℕ × Heap)
unfolding class_loop add_arena take_block
kmalloc stale size s =
    let d = class_loop desc_count 0 size s.block_size in
    if size == 0
    then some (0, s)
    else if d == desc_count
    then some (stale, s)
    else take_block d (add_arena d s)

unfoldable pub kcalloc : ℕ → ℕ → ℕ → Heap → Option (ℕ × Heap)
unfolding kmalloc
kcalloc stale nmemb size s = kmalloc stale (nmemb * size % word_limit) s

-- The loop of kfree that takes the blocks of an arena out of the list, from block `i` on.
unfoldable pub drain_loop : ℕ → ℕ → ℕ → ℕ → ℕ → Mem → Mem
unfolding arena_get_block list_remove
drain_loop zero i a list block_size m = m
drain_loop (suc left) i a list block_size m =
    drain_loop left (i + 1) a list block_size (list_remove list (arena_get_block a i block_size) m)

-- The block is put into the list, and once more if the arena is still in use.
unfoldable pub kfree : ℕ → Heap → Heap
unfolding block_get_arena list_push_back drain_loop page_free
kfree p s =
    let a = block_get_arena p in
    let d = s.arena_desc a in
    let list = free_list s d in
    let count = (s.free_count a + 1) % word_limit in
    let s₁ = record s {
      links = list_push_back list p s.links;
      free_count = update s.free_count a count;
    } in
    if p == 0
    then s
    else if count == s.arena_size d
    then record s₁ {
      links = drain_loop (s.arena_size d) 0 a list (s.block_size d) s₁.links;
      pools = page_free a s.pools;
    }
    else record s₁ { links = list_push_back list p s₁.links }
