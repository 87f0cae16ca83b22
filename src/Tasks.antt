-- ===== src/Tasks.antt =====
-- Tasks and the context switch: crates/kernel/src/task.
pub mod Switch
pub mod Choice
pub mod Invariant
pub mod Registers
pub mod Spawn
pub mod Start
pub mod Exit
mod Tests
