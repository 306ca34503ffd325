-- ===== src/Sliver.antt =====
-- Slivers, the snapshots of apps: what src/sliver/validation.rs checks and suggests.
pub mod Suggest
pub mod Integrity
pub mod Archive
pub mod Capture
mod Tests
