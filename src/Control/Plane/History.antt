-- ===== src/Control/Plane/History.antt =====
-- Every state that the control plane reaches by calls that do not panic.
use nano_rs.Common.{ℕ, ◌≡◌, ap, ◌∙◌, List, [], Text, put, arith}
use nano_rs.Control.Defs.{done, HandlerTask, RequestBatch, TenantLimits, ControlPlane}
use nano_rs.Control.Queue.{
  age_ms, is_due, in_range, ready_ids, take_ready, drain_ready_batches, all_batches,
  drain_all_batches,
}
use nano_rs.Control.Queue
use nano_rs.Control.Plane.{
  new, register_tenant, process_drained, process_batches, flush_all, submit_request,
}
use nano_rs.Control.Plane.Accept.{submit_request-IsWellFormed, submit_request_id}
use nano_rs.Control.Plane.Flush.{flush_all_ok}
use nano_rs.Control.Plane.Process.{process_batches_ok}
use nano_rs.Control.Plane.Ready.{Fresh-of_ready_ids}
use nano_rs.Control.Plane.Invariant.{IsWellFormed}

-- The control planes that come about by calls that do not panic.
pub data Reach : ControlPlane → Type 0 where
  starts : {c : ControlPlane} → new ≡ done c → Reach c
  submits :
      {c c' : ControlPlane} (now us : ℕ) (task : HandlerTask) (id : ℕ)
      → Reach c
      → submit_request now us c task ≡ (done id, c')
      → Reach c'
  processes :
      {c c' : ControlPlane} (now : ℕ) (bs : List RequestBatch)
      → Reach c
      → process_batches now c ≡ (done bs, c')
      → Reach c'
  flushes :
      {c c' : ControlPlane} (bs : List RequestBatch)
      → Reach c
      → flush_all c ≡ (done bs, c')
      → Reach c'
  registers :
      {c c' : ControlPlane} (tenant : Text) (limits : TenantLimits)
      → Reach c
      → register_tenant c tenant limits ≡ (done tt, c')
      → Reach c'

new-IsWellFormed : (c : ControlPlane) → new ≡ done c → IsWellFormed c
unfolding new Queue.new
new-IsWellFormed c e = ground arith

register_tenant-IsWellFormed :
    (c c' : ControlPlane) (tenant : Text) (limits : TenantLimits)
    → IsWellFormed c
    → register_tenant c tenant limits ≡ (done tt, c')
    → IsWellFormed c'
unfolding register_tenant
register_tenant-IsWellFormed c c' tenant limits w e =
    let same : c' ≡ record c { tenant_registry = put tenant limits c.tenant_registry } =
      ground (arith, e) in
    rw same (record { ready = w.ready; sound = w.sound; queue = w.queue; few = w.few })

process-ready :
    (now : ℕ) (c c' : ControlPlane) (bs : List RequestBatch)
    → process_batches now c ≡ (done bs, c')
    → (ids : List Text) × (ready_ids now c.batch_queue c.batch_queue.pending ≡ done ids)
unfolding process_batches process_drained drain_ready_batches
process-ready now c c' bs e = ground arith

process-IsWellFormed :
    (now : ℕ) (c c' : ControlPlane) (bs : List RequestBatch)
    → IsWellFormed c
    → process_batches now c ≡ (done bs, c')
    → IsWellFormed c'
process-IsWellFormed now c c' bs w e =
    let (ids, ready) = process-ready now c c' bs e in
    let (bs', d, e', drained) =
      process_batches_ok now c w (Fresh-of_ready_ids now c.batch_queue _ ids ready) in
    let same : c' ≡ d = ground (arith, e, e') in rw same drained.well_formed

flush-IsWellFormed :
    (c c' : ControlPlane) (bs : List RequestBatch)
    → IsWellFormed c
    → flush_all c ≡ (done bs, c')
    → IsWellFormed c'
flush-IsWellFormed c c' bs w e =
    let (bs', d, e', _, _, well) = flush_all_ok c [] w in
    let same : c' ≡ d = ground (arith, e, e') in rw same well

submit-IsWellFormed :
    (now us : ℕ) (c c' : ControlPlane) (task : HandlerTask) (id : ℕ)
    → IsWellFormed c
    → submit_request now us c task ≡ (done id, c')
    → IsWellFormed c'
submit-IsWellFormed now us c c' task id w e =
    let first = ap (λ p. p.0) e in
    let next : id ≡ c.next_id = submit_request_id now us c task id first in
    let well = submit_request-IsWellFormed now us c task w (first ∙ ap done next) in rw e at well

-- Each of them is well formed: no tenant has an empty batch or one of 64 requests waiting, and
-- every request waits under its own tenant.
pub Reach-IsWellFormed : {c : ControlPlane} → Reach c → IsWellFormed c
Reach-IsWellFormed (starts {c} e) = new-IsWellFormed c e
Reach-IsWellFormed (submits {c} {c'} now us task id r e) =
    submit-IsWellFormed now us c c' task id (Reach-IsWellFormed r) e
Reach-IsWellFormed (processes {c} {c'} now bs r e) =
    process-IsWellFormed now c c' bs (Reach-IsWellFormed r) e
Reach-IsWellFormed (flushes {c} {c'} bs r e) = flush-IsWellFormed c c' bs (Reach-IsWellFormed r) e
Reach-IsWellFormed (registers {c} {c'} tenant limits r e) =
    register_tenant-IsWellFormed c c' tenant limits (Reach-IsWellFormed r) e
