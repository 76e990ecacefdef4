-- ===== src/Printf.antt =====
-- kern/lib/shared/xprintf.c: formatted output.
mod Conversion
mod Defs
pub mod Digits
pub mod Format
mod Tests
unfoldable pub use Conversion.*
unfoldable pub use Defs.*
