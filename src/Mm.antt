-- ===== src/Mm.antt =====
-- The page allocator, the slab allocators and the page frames (weenix/kernel/mm).
pub mod Group
pub mod Pages
pub mod Slab
pub mod Frames
mod Tests
mod FrameTests
