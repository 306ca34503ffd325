-- ===== src/Control/Plane/Submit.antt =====
-- `submit_request`: when it accepts a task, and what it does then.
use nano_rs.Common.{
  ℕ, ◌≤◌, ◌<◌, ◌≡◌, ◌≢◌, ◌↔◌, true, false, [], ◌∷◌, Text, length, is_empty, contains, del-put,
  has_key, length-put, length-del, if◌then◌else◌, leb, arith,
}
use nano_rs.Limits.{request_size_bytes_max, timeout_ms}
use nano_rs.Control.Defs.{
  max_pending_batches, max_entrypoint_path_len, max_request_id_len, done, panicked, HandlerTask,
  ValidatedRequest, ControlPlane,
}
use nano_rs.Control.Queue.{pending_count}
use nano_rs.Control.Queue.Drain.{waiting}
use nano_rs.Control.Plane.{
  tenant_exists, body_size, effective_timeout, script_size, check_task, check_batch_size,
  validate_request, check_request, incr, count_submitted, submit_validated,
}
use nano_rs.Control.Plane.Invariant.{IsWellFormed, appended, enqueued, add_to_batch_lem}
use nano_rs.Control.Plane.Enqueue.{length-appended}

-- A task that passes every check of the control plane.
pub record IsAcceptable (c : ControlPlane) (task : HandlerTask) : Type 0 where
  pub entry : is_empty task.entrypoint ≡ false
  pub entry_short : length task.entrypoint ≤ max_entrypoint_path_len
  pub host : is_empty task.hostname ≡ false
  pub host_clean : contains 0 task.hostname ≡ false
  pub method : is_empty task.request.method ≡ false
  pub body_small : body_size task ≤ request_size_bytes_max
  pub time : task.cpu_time_limit_ms ≤ timeout_ms
  pub id : is_empty task.request_id ≡ false
  pub id_short : length task.request_id ≤ max_request_id_len
  pub tenant : tenant_exists c task.hostname ≡ true
  pub batch : check_batch_size c task ≡ done tt

length-is_empty : (s : Text) → is_empty s ≡ false → 0 < length s
length-is_empty [] h = cc
length-is_empty (x ∷ s) h = omega arith

abbrev pub validated_of : ℕ → HandlerTask → ValidatedRequest
validated_of now task = record {
  task = task;
  script_size = script_size task;
  timeout = effective_timeout task;
  priority = 5;
  validated_at = now;
}

check_task_ok :
    (c : ControlPlane) (task : HandlerTask)
    → c.is_initialized ≡ true
    → IsAcceptable c task
    → check_task c task ≡ done tt
unfolding check_task
check_task_ok c task ready a = ground (
  arith,
  ready,
  a.entry,
  a.entry_short,
  length-is_empty task.entrypoint a.entry,
  a.host,
  a.host_clean,
  a.method,
  a.body_small,
  a.time,
  a.id,
  a.id_short,
  a.tenant,
)

validate_request_ok :
    (c : ControlPlane) (now : ℕ) (task : HandlerTask)
    → IsAcceptable c task
    → validate_request c now task ≡ done (validated_of now task)
unfolding validate_request
validate_request_ok c now task a =
    ground
      (arith, a.entry_short, length-is_empty task.entrypoint a.entry, a.time, a.tenant, a.batch)

pub check_task-IsAcceptable :
    (c : ControlPlane) (task : HandlerTask)
    → check_task c task ≡ done tt
    → check_batch_size c task ≡ done tt
    → IsAcceptable c task
unfolding check_task
check_task-IsAcceptable c task e b = ground arith

pub validate_request-batch :
    (c : ControlPlane) (now : ℕ) (task : HandlerTask) (v : ValidatedRequest)
    → validate_request c now task ≡ done v
    → check_batch_size c task ≡ done tt
unfolding validate_request
validate_request-batch c now task v e = ground arith

-- The state after an accepted request.
unfoldable pub submitted : ℕ → ℕ → ControlPlane → HandlerTask → ControlPlane
submitted now elapsed_us c task = record c {
  batch_queue = enqueued now c.batch_queue (validated_of now task);
  metrics = count_submitted elapsed_us c.metrics;
  next_id = incr c.next_id;
}

-- There is room for one more tenant, or the tenant waits already.
abbrev pub HasRoom : ControlPlane → HandlerTask → Type 0
HasRoom c task =
    has_key task.hostname c.batch_queue.pending ≡ false
    → length c.batch_queue.pending < max_pending_batches

pub is_empty_of_ne : (s : Text) → is_empty s ≡ false → s ≢ []
is_empty_of_ne [] h = λ e. cc
is_empty_of_ne (x ∷ s) h = λ e. cc

pub length-enqueued :
    (now : ℕ) (c : ControlPlane) (task : HandlerTask)
    → IsWellFormed c
    → (length (enqueued now c.batch_queue (validated_of now task)).pending ≤ max_pending_batches)
      ↔ HasRoom c task
unfolding enqueued
length-enqueued now c task w =
    let k = task.hostname in
    let m = c.batch_queue.pending in
    let b = appended now c.batch_queue (validated_of now task) in
    unfold waiting in
    (
      λ few. λ missing.
          ground
            (arith, length-put k b m, length-appended now c.batch_queue (validated_of now task)),
      λ room. ground (arith, w.few, length-put k b m, del-put k b m, length-del k m),
    )

pub submit_validated_lem :
    (now us : ℕ) (c : ControlPlane) (task : HandlerTask)
    → IsWellFormed c
    → is_empty task.hostname ≡ false
    → submit_validated now us c (validated_of now task) ≡ (
        if leb
          (pending_count (enqueued now c.batch_queue (validated_of now task)))
          max_pending_batches
        then (done c.next_id, submitted now us c task)
        else (
          panicked,
          record c {
            batch_queue = enqueued now c.batch_queue (validated_of now task);
            poisoned = true;
          },
        ))
unfolding submit_validated submitted
submit_validated_lem now us c task w h =
    ground (arith, add_to_batch_lem now c.batch_queue (validated_of now task) w.queue h)

pub check_request_ok :
    (now : ℕ) (c : ControlPlane) (task : HandlerTask)
    → c.is_initialized ≡ true
    → c.poisoned ≡ false
    → IsAcceptable c task
    → check_request now c task ≡ done (validated_of now task)
unfolding check_request
check_request_ok now c task ready sound a =
    rw (check_task_ok c task ready a, validate_request_ok c now task a)
      (ground (arith, sound, a.entry_short, length-is_empty task.entrypoint a.entry))

pub check_request-cases :
    (now : ℕ) (c : ControlPlane) (task : HandlerTask) (v : ValidatedRequest)
    → check_request now c task ≡ done v
    → (check_task c task ≡ done tt) × (validate_request c now task ≡ done v) × (c.poisoned ≡ false)
unfolding check_request
check_request-cases now c task v e = ground arith
