-- ===== src/Filesys.antt =====
-- kern/lib/io/filesys.c: inodes on disk, open inodes, files and directories.
mod Inode
mod State
mod Space
mod Access
mod Files
mod Dirs
pub mod Visit
pub mod Offset
pub mod Mode
pub mod Create
mod Tests
unfoldable pub use Inode.*
unfoldable pub use State.*
unfoldable pub use Space.*
unfoldable pub use Access.*
unfoldable pub use Files.*
unfoldable pub use Dirs.*
