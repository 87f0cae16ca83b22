-- ===== src/Sync.antt =====
-- `IrqMutex` and its guards, of crates/kernel/src/sync.rs, on one CPU.
pub mod Mutex
mod Tests
