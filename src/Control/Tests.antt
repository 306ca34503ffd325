-- ===== src/Control/Tests.antt =====
-- The theorems on the control plane at concrete requests and queues, and runs of it.
use nano_rs.Common.{
  ℕ, zero, suc, ◌<◌, ◌≡◌, refl, ◌↔◌, true, false, none, List, [], ◌∷◌, Text, bytes, length, get,
  str_eq, contains, All, arith,
}
use nano_rs.Control.Defs.{
  done, HandlerTask, ValidatedRequest, RequestBatch, PendingBatch, ControlPlane, no_metrics,
  default_tenant_limits, batch_size_max,
}
use nano_rs.Control.Queue.{age_ms}
use nano_rs.Control.Queue
use nano_rs.Control.Plane.{
  check_batch_size, submit_request, process_batches, flush_all, pending_batch_count, tenant_exists,
}
use nano_rs.Control.Plane
use nano_rs.Control.Plane.Invariant.{IsWellFormed}
use nano_rs.Control.Plane.Submit.{IsAcceptable, HasRoom, validated_of, submitted}
use nano_rs.Control.Plane.Accept.{submit_request_ok, submit_request_iff}
use nano_rs.Control.Plane.Process.{IsDrained, process_batches_ok}
use nano_rs.Control.Plane.History.{Reach, starts, submits, Reach-IsWellFormed}

abbrev host : Text
host = bytes "localhost"

abbrev task : HandlerTask
task = record {
  entrypoint = bytes "app.js";
  request = record { method = bytes "GET"; body = none };
  hostname = host;
  cpu_time_limit_ms = 0;
  request_id = bytes "r1";
}

abbrev copies : ℕ → List ValidatedRequest
copies zero = []
copies (suc n) = validated_of 3 task ∷ copies n

abbrev batch : ℕ → PendingBatch
batch n = record { requests = copies n; created_at = 5000000 }

-- A control plane in which `n` requests of the host wait.
abbrev plane : ℕ → ControlPlane
plane n = record {
  is_initialized = true;
  batch_queue = record {
    pending = (host, batch n) ∷ [];
    max_batch_size = 64;
    max_batch_wait_ms = 10;
  };
  poisoned = false;
  metrics = no_metrics;
  next_id = 8;
  tenant_registry = (bytes "default", default_tenant_limits) ∷ [];
}

copies-own : (n : ℕ) → All (λ (r : ValidatedRequest). r.task.hostname ≡ host) (copies n)
copies-own zero = tt
copies-own (suc n) = (refl, copies-own n)

length-copies : (n : ℕ) → length (copies n) ≡ n
length-copies zero = refl
length-copies (suc n) = omega (arith, length-copies n)

plane-IsWellFormed : (n : ℕ) → 0 < n → n < batch_size_max → IsWellFormed (plane n)
unfolding get
plane-IsWellFormed n some_one room = record {
  ready = refl;
  sound = refl;
  queue = record {
    size = refl;
    wait = refl;
    distinct = (refl, tt);
    batches = (
      record {
        named = λ e. cc;
        filled = omega (arith, length-copies n, some_one);
        room = omega (arith, length-copies n, room);
        own = copies-own n;
      },
      tt,
    );
  };
  few = omega arith;
}

two-IsWellFormed : IsWellFormed (plane 2)
two-IsWellFormed = plane-IsWellFormed 2 (omega arith) (omega arith)

last-IsWellFormed : IsWellFormed (plane 63)
last-IsWellFormed = plane-IsWellFormed 63 (omega arith) (omega arith)

task-IsAcceptable : (n : ℕ) → IsAcceptable (plane n) task
unfolding contains tenant_exists check_batch_size get str_eq
task-IsAcceptable n = record {
  entry = refl;
  entry_short = omega arith;
  host = refl;
  host_clean = refl;
  method = refl;
  body_small = omega arith;
  time = omega arith;
  id = refl;
  id_short = omega arith;
  tenant = refl;
  batch = refl;
}

two-HasRoom : HasRoom (plane 2) task
unfolding get str_eq
two-HasRoom = λ missing. omega arith

accepted : (submit_request 6000000 0 (plane 2) task).0 ≡ done 8
accepted =
    (submit_request_iff 6000000 0 (plane 2) task two-IsWellFormed).1
      (task-IsAcceptable 2, two-HasRoom)

submit_request_iff_example :
    ((submit_request 6000000 0 (plane 2) task).0 ≡ done 8)
    ↔ (IsAcceptable (plane 2) task × HasRoom (plane 2) task)
submit_request_iff_example = submit_request_iff 6000000 0 (plane 2) task two-IsWellFormed

process_batches_ok_example :
    (bs : List RequestBatch) × (c' : ControlPlane) × (process_batches 17000000 (plane 2)
      ≡ (done bs, c'))
    × IsDrained 17000000 (plane 2) bs c'
process_batches_ok_example =
    process_batches_ok 17000000 (plane 2) two-IsWellFormed (omega arith, tt)

abbrev start : ControlPlane
start = record (plane 0) {
  batch_queue = record { pending = []; max_batch_size = 64; max_batch_wait_ms = 10 };
  next_id = 0;
}

start-Reach : Reach start
unfolding Plane.new Queue.new
start-Reach = starts refl

start-IsWellFormed : IsWellFormed start
start-IsWellFormed = Reach-IsWellFormed start-Reach

start-IsAcceptable : IsAcceptable start task
unfolding contains tenant_exists check_batch_size get str_eq
start-IsAcceptable = record {
  entry = refl;
  entry_short = omega arith;
  host = refl;
  host_clean = refl;
  method = refl;
  body_small = omega arith;
  time = omega arith;
  id = refl;
  id_short = omega arith;
  tenant = refl;
  batch = refl;
}

start-HasRoom : HasRoom start task
start-HasRoom = λ missing. omega arith

first-Reach : Reach (submitted 6000000 0 start task)
first-Reach =
    submits 6000000 0 task 0 start-Reach
      (submit_request_ok 6000000 0 start task start-IsWellFormed start-IsAcceptable start-HasRoom)

Reach-IsWellFormed_example : IsWellFormed (submitted 6000000 0 start task)
Reach-IsWellFormed_example = Reach-IsWellFormed first-Reach
