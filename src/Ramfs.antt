-- ===== src/Ramfs.antt =====
-- The RAM file system (weenix/kernel/fs/ramfs) and the vnodes in use (weenix/kernel/fs/vnode.c).
pub mod State
pub mod Vnodes
pub mod Entries
pub mod Names
pub mod Dirs
pub mod Data
pub mod First
pub mod NameMap
pub mod Links
pub mod Valid
pub mod Refs
pub mod GiveBack
pub mod Update
pub mod Found
pub mod Drop
pub mod Unlink
pub mod OnlyDots
pub mod Rmdir
pub mod Room
pub mod AddName
pub mod Create
pub mod NewFile
pub mod Link
pub mod Mkdir
pub mod Mount
pub mod Tests
pub mod WriteRead
