-- ===== src/Timer.antt =====
-- kern/lib/thr/timer.c: ticks and sleeping threads.
mod Defs
pub mod Interrupt
mod Tests
unfoldable pub use Defs.*
