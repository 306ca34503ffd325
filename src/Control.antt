-- ===== src/Control.antt =====
-- The control plane of src/control_plane.rs: checking requests, and collecting them in batches.
pub mod Defs
pub mod Queue
pub mod Plane
mod Tests
