-- ===== src/Bitmap.antt =====
-- kern/lib/util/bitmap.c and kern/lib/include/kern/util/bitmap.h: sets of bits packed in 64-bit
-- words, with range updates and a first-fit scan.
mod Defs
pub mod Update
pub mod Scan
pub mod Bounds
mod Tests
unfoldable pub use Defs.*
