-- ===== src/Fdtable.antt =====
-- kern/lib/thr/fdtable.c: the file descriptors of a process; and the semaphore table of
-- kern/lib/thr/syscall.c, which hands out numbers in the same way.
mod Defs
pub mod Numbers
mod Tests
unfoldable pub use Defs.*
