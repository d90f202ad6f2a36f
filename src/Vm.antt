-- ===== src/Vm.antt =====
-- Address spaces of user processes (weenix/kernel/vm).
pub mod Page
pub mod Area
pub mod Remove
pub mod Valid
pub mod Insert
pub mod FindRange
pub mod Carve
pub mod RemoveLoop
pub mod Unmap
pub mod Brk
pub mod BrkSafe
pub mod Access
pub mod Perm
pub mod Read
pub mod Copy
pub mod Map
pub mod MapSafe
pub mod Munmap
pub mod Mmap
pub mod Clone
mod Tests
