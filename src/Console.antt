-- ===== src/Console.antt =====
-- The text console of crates/kernel/src/framebuffer.rs.
pub mod Buffer
pub mod Cells
pub mod Loops
pub mod Scroll
pub mod Pixels
pub mod Draw
pub mod Render
pub mod Geometry
pub mod Shown
pub mod Write
pub mod Line
pub mod Clear
mod Tests
