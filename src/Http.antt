-- ===== src/Http.antt =====
-- HTTP: the headers, responses and routes of src/http/headers.rs, types.rs and router.rs.
pub mod Headers
pub mod Types
pub mod Serve
pub mod Router
mod Tests
