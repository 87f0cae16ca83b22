-- ===== src/Mem.antt =====
-- Memory addresses and the errors of memory operations (crates/kernel/src/mem).
pub mod Outcome
pub mod Canonical
pub mod PhysAddr
pub mod VirtAddr
pub mod Hhdm
pub mod FrameCount
pub mod Align
pub mod Memory
pub mod Fill
pub mod Bytes
mod Tests
