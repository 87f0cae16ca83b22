-- ===== src/Mailbox.antt =====
-- The GPU's mailbox (crates/kernel/src/arch/aarch64/drivers/gpu).
pub mod Message
pub mod Buffer
pub mod Request
pub mod Slices
pub mod Reply
pub mod Props
pub mod Call
mod Tests
