-- ===== src/Fs.antt =====
-- Open files and file descriptors (weenix/kernel/fs).
pub mod File
pub mod Descriptors
pub mod Refs
pub mod Close
pub mod Dup
pub mod Seek
pub mod OpenCall
mod Tests
