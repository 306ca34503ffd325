-- ===== src/Control/Plane/Enqueue.antt =====
-- What one more request does to the tenant's waiting requests.
use nano_rs.Common.{
  ℕ, suc, ◌<◌, ◌≡◌, ap, true, false, [], ◌∷◌, ◌++◌, Text, length, length-append, get-put,
  get-del_self, del-put, str_eq, str_eq_iff, ◌==◌, if◌then◌else◌, arith,
}
use nano_rs.Control.Defs.{batch_size_max, ValidatedRequest, BatchQueue}
use nano_rs.Control.Queue.{batch_or_new}
use nano_rs.Control.Plane.Invariant.{IsOrdered, appended, enqueued}
use nano_rs.Control.Queue.Drain.{waiting}

appended-requests :
    (now : ℕ) (q : BatchQueue) (r : ValidatedRequest)
    → (appended now q r).requests ≡ waiting r.task.hostname q.pending ++ (r ∷ [])
unfolding appended batch_or_new waiting
appended-requests now q r = ground arith

pub length-appended :
    (now : ℕ) (q : BatchQueue) (r : ValidatedRequest)
    → length (appended now q r).requests ≡ suc (length (waiting r.task.hostname q.pending))
length-appended now q r = omega (
  arith,
  ap length (appended-requests now q r),
  length-append (waiting r.task.hostname q.pending) (r ∷ []),
)

-- A full batch is dropped: its tenant has nothing left waiting.
pub enqueued_full :
    (now : ℕ) (q : BatchQueue) (r : ValidatedRequest)
    → IsOrdered q
    → suc (length (waiting r.task.hostname q.pending)) ≡ batch_size_max
    → waiting r.task.hostname (enqueued now q r).pending ≡ []
unfolding enqueued
enqueued_full now q r o full =
    let k = r.task.hostname in
    let b = appended now q r in
    let size : (length b.requests == batch_size_max) ≡ true =
      ground (arith, full, length-appended now q r) in
    rw (size, del-put k b q.pending)
      (unfold waiting in ground (arith, get-del_self k q.pending o.distinct))

-- One that is not full waits behind the tenant's others; the other tenants' batches stay.
pub enqueued_more :
    (now : ℕ) (q : BatchQueue) (r : ValidatedRequest) (t : Text)
    → suc (length (waiting r.task.hostname q.pending)) < batch_size_max
    → waiting t (enqueued now q r).pending
      ≡ (if str_eq r.task.hostname t then waiting t q.pending ++ (r ∷ []) else waiting t q.pending)
unfolding enqueued
enqueued_more now q r t more =
    let k = r.task.hostname in
    let b = appended now q r in
    let size : (length b.requests == batch_size_max) ≡ false =
      ground (arith, more, length-appended now q r) in
    rw size (
      unfold waiting in
      ground (arith, str_eq_iff k t, get-put k t b q.pending, appended-requests now q r))
