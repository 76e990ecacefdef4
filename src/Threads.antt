-- ===== src/Threads.antt =====
-- kern/lib/thr/thread.c: threads, the ready queue, semaphores, locks and condition variables; and the
-- interrupt level of kern/lib/intr/interrupt.c.
mod Defs
mod Sync
pub mod Schedule
pub mod Semaphore
pub mod Sound
pub mod Wake
pub mod Steps
mod Tests
unfoldable pub use Defs.*
unfoldable pub use Sync.*
