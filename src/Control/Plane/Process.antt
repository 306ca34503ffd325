-- ===== src/Control/Plane/Process.antt =====
-- `process_batches`: what it gives out, what stays, and when it panics.
use nano_rs.Common.{ℕ, ◌+◌, ◌≤◌, ◌≡◌, List, ◌++◌, Text, length, get, All, arith}
use nano_rs.Control.Defs.{max_pending_batches, done, RequestBatch, BatchQueue, ControlPlane}
use nano_rs.Control.Queue.{ready_ids, take_ready, drain_ready_batches}
use nano_rs.Control.Queue.Drain.{
  requests_of, waiting, remaining, drain-conserves, drain-remaining, take_ready-Distinct,
}
use nano_rs.Control.Plane.{check_drained, process_drained, process_batches}
use nano_rs.Control.Plane.Ready.{
  Fresh, ready_ids_of_Fresh, IsBatch, take_ready-IsBatch, length-take_ready, check_batches_ok,
  processed,
}
use nano_rs.Control.Plane.Invariant.{IsWellFormed}

drained : ℕ → ControlPlane → List Text → List RequestBatch × BatchQueue
drained now c ids =
    let (bs, m) = take_ready now ids c.batch_queue.pending in
    (bs, record c.batch_queue { pending = m })

module _ (now : ℕ) (c : ControlPlane) (ids : List Text) (w : IsWellFormed c)
    (ready : ready_ids now c.batch_queue c.batch_queue.pending ≡ done ids) where
  drain_of_ready :
      drain_ready_batches now c.batch_queue ≡ (done (drained now c ids).0, (drained now c ids).1)
  unfolding drained drain_ready_batches
  drain_of_ready = ground (arith, ready)

  drained-IsBatch : All IsBatch (drained now c ids).0
  unfolding drained
  drained-IsBatch = (take_ready-IsBatch now ids c.batch_queue.pending w.queue.batches).0

  drained-few :
      length (drained now c ids).0 + length (drained now c ids).1.pending ≤ max_pending_batches
  unfolding drained
  drained-few = omega (arith, length-take_ready now ids c.batch_queue.pending, w.few)

  process_of_ready :
      process_batches now c
      ≡ (done (drained now c ids).0, processed c (drained now c ids).0 (drained now c ids).1)
  unfolding process_batches process_drained check_drained processed
  process_of_ready = ground (
    arith,
    w.ready,
    w.sound,
    drain_of_ready,
    check_batches_ok (drained now c ids).0 drained-IsBatch,
    drained-few,
  )

  processed-IsWellFormed : IsWellFormed (processed c (drained now c ids).0 (drained now c ids).1)
  unfolding processed
  processed-IsWellFormed = record {
    ready = w.ready;
    sound = w.sound;
    queue = record {
      size = unfold drained in w.queue.size;
      wait = unfold drained in w.queue.wait;
      distinct =
          unfold drained in take_ready-Distinct now ids c.batch_queue.pending w.queue.distinct;
      batches =
          unfold drained in (take_ready-IsBatch now ids c.batch_queue.pending w.queue.batches).1;
    };
    few = omega (arith, drained-few);
  }

-- The batches come out, and with them an account of every tenant's requests: those given out,
-- then those that still wait, are those that waited; and exactly the due batches have left.
pub record IsDrained (now : ℕ) (c : ControlPlane) (bs : List RequestBatch) (c' : ControlPlane)
    : Type 0 where
  pub batches : All IsBatch bs
  pub well_formed : IsWellFormed c'
  pub conserved :
      (t : Text)
      → requests_of t bs ++ waiting t c'.batch_queue.pending ≡ waiting t c.batch_queue.pending
  pub due :
      (t : Text)
      → get t c'.batch_queue.pending ≡ remaining now c.batch_queue (get t c.batch_queue.pending)

-- While no batch is older than 20 ms, `process_batches` ends well and drains the queue.
pub process_batches_ok :
    (now : ℕ) (c : ControlPlane)
    → IsWellFormed c
    → Fresh now c.batch_queue c.batch_queue.pending
    → (bs : List RequestBatch) × (c' : ControlPlane) × (process_batches now c ≡ (done bs, c'))
      × IsDrained now c bs c'
process_batches_ok now c w f =
    let (ids, ready) = ready_ids_of_Fresh now c.batch_queue c.batch_queue.pending f in
    let (bs, q) = drained now c ids in
    let e = drain_of_ready now c ids w ready in
    (
      bs,
      processed c bs q,
      process_of_ready now c ids w ready,
      record {
        batches = drained-IsBatch now c ids w ready;
        well_formed = processed-IsWellFormed now c ids w ready;
        conserved = unfold processed in drain-conserves now c.batch_queue q bs w.queue.distinct e;
        due = unfold processed in drain-remaining now c.batch_queue q bs w.queue.distinct e;
      },
    )
