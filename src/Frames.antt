-- ===== src/Frames.antt =====
-- The frame allocator (crates/kernel/src/mem/paging/allocator.rs) and the memory map that it is made
-- from (crates/kernel/src/mem/paging/mod.rs).
pub mod Bump
pub mod MemMap
pub mod Remaining
pub mod Allocator
pub mod Usage
pub mod Handover
pub mod Source
mod Tests
