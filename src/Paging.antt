-- ===== src/Paging.antt =====
-- kern/lib/mem/paging.c: the kernel's and the user's pool of 2 MB pages.
mod Defs
pub mod Pool
pub mod Free
pub mod Reserve
mod Tests
unfoldable pub use Defs.*
