-- ===== src/Heap.antt =====
-- kern/lib/mem/heap.c and kern/lib/include/shared/heapstruct.h: the kernel's heap.
mod Defs
pub mod Blocks
mod Tests
unfoldable pub use Defs.*
