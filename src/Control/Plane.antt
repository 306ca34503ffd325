-- ===== src/Control/Plane.antt =====
-- `ControlPlane` of src/control_plane.rs: each call gives its outcome and the new state.
pub mod Invariant
pub mod Enqueue
pub mod Submit
pub mod Accept
pub mod Ready
pub mod Process
pub mod Poison
pub mod Flush
pub mod History
use nano_rs.Common.{
  ℕ, ◌+◌, ◌%◌, ◌^◌, Bool, true, false, not, ◌&&◌, ◌||◌, Option, none, some, List, [], ◌∷◌, Text,
  bytes, length, is_empty, contains, put, get, has_key, ltb, leb, str_eq, if◌then◌else◌,
}
use nano_rs.Limits.{request_size_bytes_max, script_size_bytes_max, body_size_bytes_max, timeout_ms}
use nano_rs.Control.Defs.{
  batch_size_max, batch_wait_ms, max_pending_batches, max_entrypoint_path_len, max_request_id_len,
  Outcome, done, failed, panicked, ◌>>=◌, ◌>>◌, assert, HandlerTask, ValidatedRequest, RequestBatch,
  BatchQueue, TenantLimits, default_tenant_limits, ControlMetrics, no_metrics, ControlPlane,
}
use nano_rs.Control.Queue.{
  in_range, pending_count, add_to_batch, drain_ready_batches, drain_all_batches,
}
use nano_rs.Control.Queue

unfoldable pub new : Outcome ControlPlane
new = do
  queue ← Queue.new batch_size_max batch_wait_ms
  done (record {
    is_initialized = true;
    batch_queue = queue;
    poisoned = false;
    metrics = no_metrics;
    next_id = 0;
    tenant_registry = (bytes "default", default_tenant_limits) ∷ [];
  })

unfoldable pub tenant_exists : ControlPlane → Text → Bool
tenant_exists c tenant_id =
    if is_empty tenant_id
    then true
    else has_key tenant_id c.tenant_registry
      || str_eq tenant_id (bytes "default")
      || str_eq tenant_id (bytes "localhost")

abbrev pub body_size : HandlerTask → ℕ
body_size task = elim task.request.body [ none ↦ 0 | some b ↦ length b ]

-- 0 stands for the default limit.
abbrev pub effective_timeout : HandlerTask → ℕ
effective_timeout task = if ltb 0 task.cpu_time_limit_ms then task.cpu_time_limit_ms else timeout_ms

-- `len() as u32`.
abbrev pub script_size : HandlerTask → ℕ
script_size task = length task.entrypoint % 2 ^ 32

-- The checks at the head of `submit_request`.
unfoldable pub check_task : ControlPlane → HandlerTask → Outcome (Unit {0})
check_task c task = do
  assert c.is_initialized
  assert (not (is_empty task.entrypoint))
  assert (not (ltb max_entrypoint_path_len (length task.entrypoint)))
  assert (in_range (length task.entrypoint) 1 max_entrypoint_path_len)
  assert (not (is_empty task.hostname))
  assert (not (contains 0 task.hostname))
  assert (not (is_empty task.request.method))
  assert (leb (body_size task) request_size_bytes_max)
  assert (not (ltb body_size_bytes_max (body_size task)))
  assert (in_range task.cpu_time_limit_ms 0 timeout_ms)
  assert (not (is_empty task.request_id))
  assert (leb (length task.request_id) max_request_id_len)
  assert (tenant_exists c task.hostname)

-- The tenant's batch size is within the limit, if the tenant is registered.
unfoldable pub check_batch_size : ControlPlane → HandlerTask → Outcome (Unit {0})
check_batch_size c task = elim (get task.hostname c.tenant_registry) [
  | none ↦ done tt
  | some limits ↦ assert (leb limits.max_batch_size batch_size_max)
]

unfoldable pub validate_request : ControlPlane → ℕ → HandlerTask → Outcome ValidatedRequest
validate_request c now task = do
  assert (ltb 0 (script_size task))
  assert (not (ltb script_size_bytes_max (script_size task)))
  assert (in_range (effective_timeout task) 1 timeout_ms)
  assert (tenant_exists c task.hostname)
  check_batch_size c task
  assert (ltb 0 (effective_timeout task))
  done (record {
    task = task;
    script_size = script_size task;
    timeout = effective_timeout task;
    priority = 5;
    validated_at = now;
  })

unfoldable pub validate_request_ref : ControlPlane → HandlerTask → Outcome (Unit {0})
validate_request_ref c task = do
  assert (ltb 0 (script_size task))
  assert (not (ltb script_size_bytes_max (script_size task)))
  assert (in_range (effective_timeout task) 1 timeout_ms)
  assert (tenant_exists c task.hostname)
  assert (leb (body_size task) request_size_bytes_max)
  assert (ltb 0 (effective_timeout task))

abbrev pub incr : ℕ → ℕ
incr n = (n + 1) % 2 ^ 64

abbrev pub count_submitted : ℕ → ControlMetrics → ControlMetrics
count_submitted elapsed_us m = record m {
  requests_submitted = incr m.requests_submitted;
  requests_validated = incr m.requests_validated;
  total_validation_time_us = (m.total_validation_time_us + elapsed_us) % 2 ^ 64;
}

-- The part of `submit_request` under the lock of the queue.
unfoldable pub submit_validated : ℕ → ℕ → ControlPlane → ValidatedRequest → Outcome ℕ × ControlPlane
submit_validated now elapsed_us c validated =
    let (added, queue) = add_to_batch now c.batch_queue validated in
    elim added [
      | panicked ↦ (panicked, record c { batch_queue = queue; poisoned = true })
      | failed e ↦ (failed e, record c { batch_queue = queue })
      | done _ ↦
          if leb (pending_count queue) max_pending_batches
          then (
            done c.next_id,
            record c {
              batch_queue = queue;
              metrics = count_submitted elapsed_us c.metrics;
              next_id = incr c.next_id;
            },
          )
          else (panicked, record c { batch_queue = queue; poisoned = true })
    ]

-- All that `submit_request` does before it holds the lock, the `unwrap` of the lock included.
unfoldable pub check_request : ℕ → ControlPlane → HandlerTask → Outcome ValidatedRequest
check_request now c task = do
  check_task c task
  validated ← validate_request c now task
  assert (ltb 0 validated.script_size)
  assert (not c.poisoned)
  done validated

-- The outcome is the `SubmissionId`. `elapsed_us` is how long the lock and the queue took.
unfoldable pub submit_request : ℕ → ℕ → ControlPlane → HandlerTask → Outcome ℕ × ControlPlane
submit_request now elapsed_us c task = elim (check_request now c task) [
  | panicked ↦ (panicked, c)
  | failed e ↦ (failed e, c)
  | done validated ↦ submit_validated now elapsed_us c validated
]

-- The checks of the drained batches.
unfoldable pub check_batches : List RequestBatch → Outcome (Unit {0})
check_batches [] = done tt
check_batches (b ∷ bs) = do
  assert (not (is_empty b.requests))
  assert (in_range (length b.requests) 1 batch_size_max)
  assert (not (is_empty b.tenant_id))
  check_batches bs

abbrev pub count_flushed : List RequestBatch → ControlMetrics → ControlMetrics
count_flushed batches m = record m {
  batches_flushed = (m.batches_flushed + length batches) % 2 ^ 64;
}

unfoldable pub check_drained : List RequestBatch → Outcome (Unit {0})
check_drained batches = do check_batches batches; assert (leb (length batches) max_pending_batches)

-- The part of `process_batches` under the lock.
unfoldable pub process_drained :
    ControlPlane
    → Outcome (List RequestBatch) × BatchQueue
    → Outcome (List RequestBatch) × ControlPlane
process_drained c (drained, queue) = elim drained [
  | panicked ↦ (panicked, record c { batch_queue = queue; poisoned = true })
  | failed e ↦ (failed e, record c { batch_queue = queue })
  | done batches ↦ elim (check_drained batches) [
    | panicked ↦ (panicked, record c { batch_queue = queue; poisoned = true })
    | failed e ↦ (failed e, record c { batch_queue = queue })
    | done _ ↦
        (done batches, record c { batch_queue = queue; metrics = count_flushed batches c.metrics })
  ]
]

unfoldable pub process_batches : ℕ → ControlPlane → Outcome (List RequestBatch) × ControlPlane
process_batches now c =
    if not c.is_initialized || c.poisoned
    then (panicked, c)
    else process_drained c (drain_ready_batches now c.batch_queue)

unfoldable pub flush_all : ControlPlane → Outcome (List RequestBatch) × ControlPlane
flush_all c =
    if not c.is_initialized || c.poisoned
    then (panicked, c)
    else let (batches, queue) = drain_all_batches c.batch_queue in
      (done batches, record c { batch_queue = queue; metrics = count_flushed batches c.metrics })

unfoldable pub register_tenant :
    ControlPlane → Text → TenantLimits → Outcome (Unit {0}) × ControlPlane
register_tenant c tenant_id limits =
    let checked = (do
      assert (not (is_empty tenant_id))
      assert (not (contains 0 tenant_id))
      assert (in_range limits.max_script_size 1 script_size_bytes_max)
      assert (in_range limits.max_timeout_ms 100 timeout_ms)) in
    elim checked [
      | done _ ↦ (done tt, record c { tenant_registry = put tenant_id limits c.tenant_registry })
      | failed e ↦ (failed e, c)
      | panicked ↦ (panicked, c)
    ]

unfoldable pub pending_batch_count : ControlPlane → Outcome ℕ
pending_batch_count c = if c.poisoned then panicked else done (pending_count c.batch_queue)
