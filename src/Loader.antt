-- ===== src/Loader.antt =====
-- The chain loader (crates/chainloader) and the program that feeds it a kernel (tools/loader): two
-- processes that talk over a serial line.
pub mod Process
pub mod Chainloader
pub mod Client
pub mod Length
pub mod Schedule
pub mod Phases
pub mod Device
pub mod Sender
pub mod Transfer
pub mod Echo
pub mod Server
pub mod Symbols
mod Tests
