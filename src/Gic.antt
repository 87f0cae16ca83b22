-- ===== src/Gic.antt =====
-- The interrupt controller: crates/kernel/src/arch/aarch64/gic.rs and drivers/mmio.rs.
pub mod Mmio
pub mod Chip
pub mod Disable
pub mod Enable
pub mod Parse
mod Tests
