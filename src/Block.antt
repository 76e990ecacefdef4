-- ===== src/Block.antt =====
-- kern/lib/io/block.c and the sector transfers of kern/lib/io/ide.c: partitions of a disk.
mod Defs
pub mod Transfer
mod Tests
unfoldable pub use Defs.*
