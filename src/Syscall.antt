-- ===== src/Syscall.antt =====
-- kern/lib/thr/syscall.c: the system calls on processes, files, descriptors, semaphores and time.
mod Defs
mod Family
pub mod Sleep
pub mod Wait
pub mod Fork
pub mod Tests
pub mod Exit
unfoldable pub use Defs.*
unfoldable pub use Family.*
