-- ===== src/Path.antt =====
-- Path names, kernel/fs/namev.c, and the system calls of kernel/fs/vfs_syscall.c that take one, over
-- the RAM file system.
pub mod Namev
pub mod Split
pub mod Walk
pub mod Balance
pub mod Resolve
pub mod Calls
pub mod MkdirCall
pub mod MkdirSafe
pub mod UnlinkSafe
mod Tests
