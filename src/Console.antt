-- ===== src/Console.antt =====
-- kern/lib/io/console.c: the text console on the VGA buffer.
mod Defs
pub mod Scroll
pub mod Write
mod Tests
unfoldable pub use Defs.*
