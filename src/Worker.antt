-- ===== src/Worker.antt =====
-- The workers of src/worker: how the work queue registers tenants (queue.rs), the memory limits
-- (limits.rs, oom.rs), the pools (pool.rs, tenant_pool.rs) and the limits of time (timeout.rs,
-- cpu_tracker.rs).
pub mod Queue
pub mod Memory
pub mod Pool
pub mod Timeout
mod Tests
