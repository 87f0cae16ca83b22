-- ===== src/BootLoader.antt =====
-- The page tables of the boot loader (crates/bootloader/src/lib.rs), which the kernel starts on.
pub mod Tables
pub mod Laws
pub mod Range
pub mod Blocks
pub mod Walk
mod Tests
