-- ===== src/Metrics.antt =====
-- The metrics of tenants: src/metrics/types.rs and src/metrics/tenant.rs.
pub mod Counters
pub mod Gauges
pub mod Histograms
pub mod Tenant
pub mod Collector
mod Tests
