-- ===== src/Control/Plane/Poison.antt =====
-- Panics under the lock of the queue, and what comes after one.
use nano_rs.Common.{ℕ, ◌*◌, ◌<◌, ◌≡◌, inl, inr, true, List, [], ◌∷◌, some, Text, get, arith}
use nano_rs.Control.Defs.{panicked, HandlerTask, PendingBatch, BatchQueue, ControlPlane}
use nano_rs.Control.Queue.{age_ms, ready_ids, drain_ready_batches}
use nano_rs.Control.Plane.{
  process_drained, process_batches, flush_all, submit_request, check_request, pending_batch_count,
}
use nano_rs.Control.Plane.Submit.{check_request-cases}
use nano_rs.Control.Plane.Accept.{Outcome-cases, check_request-ne-failed}
use nano_rs.Control.Plane.Invariant.{IsWellFormed}

-- A control plane with the queue poisoned by a panic.
abbrev pub poison : ControlPlane → ControlPlane
poison c = record c { poisoned = true }

ready_ids-panicked :
    (now : ℕ) (q : BatchQueue) (t : Text) (b : PendingBatch) (m : List (Text × PendingBatch))
    → get t m ≡ some b
    → q.max_batch_wait_ms * 2 < age_ms now b
    → ready_ids now q m ≡ panicked
unfolding ready_ids get
ready_ids-panicked now q t b [] found old = cc
ready_ids-panicked now q t b ((k, a) ∷ m) found old = ground (arith, ready_ids-panicked now q t b m)

-- One batch older than 20 ms, and `process_batches` panics under the lock.
pub process_batches_stale :
    (now : ℕ) (c : ControlPlane) (t : Text) (b : PendingBatch)
    → IsWellFormed c
    → get t c.batch_queue.pending ≡ some b
    → c.batch_queue.max_batch_wait_ms * 2 < age_ms now b
    → process_batches now c ≡ (panicked, poison c)
unfolding process_batches process_drained drain_ready_batches
process_batches_stale now c t b w found old = ground (
  arith,
  w.ready,
  w.sound,
  ready_ids-panicked now c.batch_queue t b c.batch_queue.pending found old,
)

submit_poisoned :
    (now us : ℕ) (c : ControlPlane) (task : HandlerTask)
    → c.poisoned ≡ true
    → submit_request now us c task ≡ (panicked, c)
unfolding submit_request
submit_poisoned now us c task p = elim (Outcome-cases (check_request now c task)) [
  | inl (v, h) ↦
      let sound = (check_request-cases now c task v h).2 in absurd (ground (arith, p, sound))
  | inr (inl (x, h)) ↦ absurd (check_request-ne-failed x now c task h)
  | inr (inr h) ↦ rw (h, submit_request)
]

-- After a panic under the lock every call panics, and leaves the control plane as it is.
pub poisoned_for_ever :
    (now us : ℕ) (c : ControlPlane) (task : HandlerTask)
    → c.poisoned ≡ true
    → (submit_request now us c task ≡ (panicked, c))
      × (process_batches now c ≡ (panicked, c))
      × (flush_all c ≡ (panicked, c))
      × (pending_batch_count c ≡ panicked)
unfolding process_batches flush_all pending_batch_count
poisoned_for_ever now us c task p =
    (submit_poisoned now us c task p, ground (arith, p), ground (arith, p), ground (arith, p))
