-- ===== src/Stdio.antt =====
-- kern/lib/usr/fdbuf.c: buffered streams of user programs.
mod Defs
mod Streams
mod Formatted
pub mod Cut
pub mod Write
pub mod Read
mod Tests
unfoldable pub use Defs.*
unfoldable pub use Streams.*
unfoldable pub use Formatted.*
