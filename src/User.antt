-- ===== src/User.antt =====
-- kern/lib/include/shared/system.h, kern/lib/usr/syscall.c and kern/lib/usr/synch.c: the system calls
-- as a program makes them, and the table of the kernel, which thr/syscall.c fills, and the locks of a
-- program.
mod Calls
pub mod Dispatch
mod Lock
pub mod Locked
mod Tests
unfoldable pub use Calls.*
unfoldable pub use Lock.*
