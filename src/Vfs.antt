-- ===== src/Vfs.antt =====
-- The virtual file system: src/vfs. Paths, errors and limits (types.rs), the in-memory backend
-- (memory.rs) and the namespace of each isolate (isolate.rs).
pub mod Path
pub mod Types
pub mod Memory
pub mod Isolate
mod Tests
