-- ===== src/Irq.antt =====
-- Interrupts: crates/kernel/src/irq.rs and the translation of arch/aarch64/gic.rs.
pub mod Chip
pub mod Interrupt
mod Tests
