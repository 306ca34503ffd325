-- ===== src/Worker/Tests.antt =====
-- The theorems on the workers at concrete tenants and heaps.
mod Pools
mod Queues
use nano_rs.Common.{
  List, ℕ, ◌+◌, ◌*◌, ◌/◌, ◌≤◌, ◌↔◌, ltb, if◌then◌else◌, arith, ◌≡◌, refl, true, false, none, [],
  ◌∷◌, Text, bytes, get, put, str_eq, contains,
}
use nano_rs.Control.Defs.{
  done, panicked, HandlerTask, ControlPlane, no_metrics, default_tenant_limits,
}
use nano_rs.Control.Plane.{submit_request, register_tenant, tenant_exists}
use nano_rs.Worker.Memory.{
  HeapStatistics, total_memory_bytes, within, Threshold, MemoryLimiter, new_monitor, new_tracker,
  start, check_limit,
}
use nano_rs.Worker.Memory.Monitor.{Op, checks, resets, count, nothing, run, Shows, run-new_monitor}
use nano_rs.Worker.Memory.Tracker.{check_limit-start}
use nano_rs.Worker.Queue.{queue_tenant_limits, register_all, ensure_tenant}
use nano_rs.Worker.Queue.Tenants.{submit_request-register_all}

abbrev host : Text
host = bytes "app.io"

abbrev task : HandlerTask
task = record {
  entrypoint = bytes "app.js";
  request = record { method = bytes "GET"; body = none };
  hostname = host;
  cpu_time_limit_ms = 0;
  request_id = bytes "r1";
}

abbrev fresh : ControlPlane
fresh = record {
  is_initialized = true;
  batch_queue = record { pending = []; max_batch_size = 64; max_batch_wait_ms = 10 };
  poisoned = false;
  metrics = no_metrics;
  next_id = 0;
  tenant_registry = (bytes "default", default_tenant_limits) ∷ [];
}

abbrev known : ControlPlane
known = record fresh {
  tenant_registry = (bytes "default", default_tenant_limits) ∷ (host, queue_tenant_limits) ∷ [];
}

submit_request-register_all_example : submit_request 0 0 known task ≡ (panicked, known)
unfolding register_all register_tenant contains put str_eq
submit_request-register_all_example =
    submit_request-register_all 0 0 fresh known task (host ∷ []) refl refl

-- A hostname that the queue sees for the first time gets the same limits.
ensure_tenant-known : ensure_tenant fresh host ≡ done known
unfolding ensure_tenant register_tenant tenant_exists contains get put str_eq
ensure_tenant-known = refl

abbrev stats : ℕ → HeapStatistics
stats used = record {
  used_heap_size = used;
  total_heap_size = 0;
  heap_size_limit = 0;
  external_memory = 0;
  number_of_native_contexts = 1;
  number_of_detached_contexts = 0;
}

-- Thresholds in percent.
abbrev percent : Threshold
percent = record {
  Value = ℕ;
  one = 100;
  clamp = λ v. if ltb 100 v then 100 else v;
  times = λ n v. n * v / 100;
}

abbrev half : MemoryLimiter percent
half = record {
  limit_bytes = 1000;
  current_bytes = 0;
  oom_triggered = false;
  app_hostname = host;
  oom_threshold = 50;
}

abbrev looks : List Op
looks = checks (stats 400) ∷ checks (stats 600) ∷ resets ∷ checks (stats 500) ∷ []

tally_looks : count 500 nothing looks ≡ record { checked = 3; above = 1; alarm = false }
unfolding total_memory_bytes
tally_looks = refl
