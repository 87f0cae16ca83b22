-- ===== src/Paging.antt =====
-- Page tables (crates/kernel/src/mem/paging/table.rs).
pub mod Level
pub mod BlockSize
pub mod Flags
pub mod Entry
pub mod Monad
pub mod FrameSource
pub mod Table
pub mod Flush
pub mod MapMemory
mod Tests
