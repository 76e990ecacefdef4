-- ===== src/LinkedList.antt =====
-- kern/lib/shared/list.c and kern/lib/include/shared/util/list.h: the intrusive doubly linked list
-- with two sentinels, over a memory of pointer fields.
mod Defs
pub mod Chain
pub mod Ends
pub mod Insert
pub mod Remove
pub mod Ordered
pub mod Walk
pub mod Visit
pub mod Zeroed
mod Tests
unfoldable pub use Defs.*
