-- ===== src/App.antt =====
-- The hosted apps: waiting for the requests in flight, src/app/drain.rs, and the reload of the
-- configuration, src/app/reload.rs.
pub mod Drain
pub mod Reload
mod Tests
