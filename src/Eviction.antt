-- ===== src/Eviction.antt =====
-- Eviction of isolates under memory pressure: src/worker/eviction.rs, with the pressure levels of
-- src/worker/memory_monitor.rs.
pub mod Defs
pub mod Sort
pub mod Victims
pub mod Manager
mod Tests
