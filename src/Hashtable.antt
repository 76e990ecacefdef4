-- ===== src/Hashtable.antt =====
-- kern/lib/util/hashtable.c: a chained hash table of list elements.
mod Defs
pub mod Buckets
pub mod Refine
pub mod Init
pub mod Visit
mod Tests
unfoldable pub use Defs.*
