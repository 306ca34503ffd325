-- ===== src/Runtime.antt =====
-- Parts of src/runtime.
pub mod Stream
mod Tests
