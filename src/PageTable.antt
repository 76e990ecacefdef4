-- ===== src/PageTable.antt =====
-- kern/lib/mem/pml4.c: the page tables of a process, and the walk of the processor through them.
mod Defs
pub mod Index
pub mod Walk
mod Install
pub mod Fault
pub mod Map
pub mod Flags
pub mod Boot
pub mod Copy
mod Tests
unfoldable pub use Defs.*
unfoldable pub use Install.*
