-- ===== src/Exception.antt =====
-- Exceptions of AArch64 (crates/kernel/src/arch/aarch64/vectors.rs).
pub mod Machine
pub mod Vectors
pub mod Saved
pub mod Pushes
pub mod Entry
pub mod Handler
mod Tests
