-- ===== src/Strings.antt =====
-- kern/lib/shared/string.c and kern/lib/shared/memsum.c, over memory as bytes by address.
mod Defs
pub mod Copy
pub mod Scan
unfoldable pub use Defs.*
