-- ===== src/Process.antt =====
-- kern/lib/thr/process.c, kern/lib/mem/spt.c and kern/lib/mem/frame.c: the address space of a process,
-- and its life from the fork on.
mod Pages
mod Exec
mod Life
mod Leave
mod Frame
mod Load
pub mod Segment
pub mod Dec
pub mod Kept
pub mod Destroy
pub mod Children
pub mod Frames
mod Tests
unfoldable pub use Pages.*
unfoldable pub use Exec.*
unfoldable pub use Life.*
unfoldable pub use Leave.*
unfoldable pub use Frame.*
unfoldable pub use Load.*
