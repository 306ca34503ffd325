-- ===== src/Limits.antt =====
-- The fixed limits of src/limits.rs.
use nano_rs.Common.{ℕ, ◌+◌, ◌*◌, ◌/◌}

abbrev pub pool_size_max : ℕ
pool_size_max = 10000

abbrev pub heap_size_bytes_per_isolate : ℕ
heap_size_bytes_per_isolate = 128 * 1024 * 1024

abbrev pub heap_size_bytes_max : ℕ
heap_size_bytes_max = 256 * 1024 * 1024

abbrev pub depth_max : ℕ
depth_max = 10000

abbrev pub workers_per_app_max : ℕ
workers_per_app_max = 64

abbrev pub per_worker_capacity : ℕ
per_worker_capacity = 256

abbrev pub request_pool_size : ℕ
request_pool_size = 1000

abbrev pub request_size_bytes_max : ℕ
request_size_bytes_max = 10 * 1024 * 1024

abbrev pub script_size_bytes_max : ℕ
script_size_bytes_max = 10 * 1024 * 1024

abbrev pub timeout_ms : ℕ
timeout_ms = 30000

abbrev pub body_size_bytes_max : ℕ
body_size_bytes_max = 10 * 1024 * 1024

-- A pointer has 8 bytes.
pub total_static_allocation_bytes : ℕ
total_static_allocation_bytes =
    pool_size_max * heap_size_bytes_per_isolate
    + depth_max * 8
    + request_pool_size * request_size_bytes_max

pub total_static_allocation_mb : ℕ
total_static_allocation_mb = total_static_allocation_bytes / (1024 * 1024)
