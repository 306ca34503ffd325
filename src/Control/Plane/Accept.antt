-- ===== src/Control/Plane/Accept.antt =====
-- What `submit_request` gives, in terms of the task and the queue.
use nano_rs.Common.{
  ℕ, suc, ◌<◌, ◌≡◌, refl, ap, ◌∙◌, ◌≢◌, ◌⊎◌, ◌↔◌, inl, inr, [], ◌∷◌, ◌++◌, Text, length, str_eq,
  if◌then◌else◌, arith,
}
use nano_rs.Control.Defs.{
  batch_size_max, ControlError, Outcome, done, failed, panicked, HandlerTask, ValidatedRequest,
  ControlPlane, BatchQueue,
}
use nano_rs.Control.Queue.{pending_count, add_to_batch, push_request, flush_batch}
use nano_rs.Control.Queue.Drain.{waiting}
use nano_rs.Control.Plane.{
  check_task, check_batch_size, validate_request, check_request, submit_validated, submit_request,
}
use nano_rs.Control.Plane.Invariant.{IsWellFormed, enqueued-IsOrdered}
use nano_rs.Control.Plane.Submit.{
  IsAcceptable, HasRoom, validated_of, submitted, length-enqueued, submit_validated_lem,
  check_request_ok, check_request-cases, check_task-IsAcceptable, validate_request-batch,
  is_empty_of_ne,
}
use nano_rs.Control.Plane.Enqueue.{enqueued_full, enqueued_more}

-- A request that passes the checks, with room for its tenant, is accepted under the next number.
pub submit_request_ok :
    (now us : ℕ) (c : ControlPlane) (task : HandlerTask)
    → IsWellFormed c
    → IsAcceptable c task
    → HasRoom c task
    → submit_request now us c task ≡ (done c.next_id, submitted now us c task)
unfolding pending_count submit_request submitted
submit_request_ok now us c task w a room =
    rw (check_request_ok now c task w.ready w.sound a, submit_request)
      (submit_validated_lem now us c task w a.host
        ∙ ground (arith, (length-enqueued now c task w).1 room))

submit_request-cases :
    (now us : ℕ) (c : ControlPlane) (task : HandlerTask) (id : ℕ)
    → (submit_request now us c task).0 ≡ done id
    → (v : ValidatedRequest) × (check_request now c task ≡ done v)
      × ((submit_validated now us c v).0 ≡ done id)
unfolding submit_request
submit_request-cases now us c task id e = ground arith

pub submit_request_id :
    (now us : ℕ) (c : ControlPlane) (task : HandlerTask) (id : ℕ)
    → (submit_request now us c task).0 ≡ done id
    → id ≡ c.next_id
unfolding submit_validated
submit_request_id now us c task id e =
    let (v, _, e') = submit_request-cases now us c task id e in ground (arith, e')

-- A well-formed control plane accepts a task exactly if it passes all the checks and the queue
-- has room; then the task gets the next number.
pub submit_request_iff :
    (now us : ℕ) (c : ControlPlane) (task : HandlerTask)
    → IsWellFormed c
    → ((submit_request now us c task).0 ≡ done c.next_id) ↔ (IsAcceptable c task × HasRoom c task)
unfolding pending_count
submit_request_iff now us c task w = (
  λ e.
      let (v, checked, e') = submit_request-cases now us c task c.next_id e in
      let (format, valid, _) = check_request-cases now c task v checked in
      let a = check_task-IsAcceptable c task format (validate_request-batch c now task v valid) in
      let same = check_request_ok now c task w.ready w.sound a in
      let v' : v ≡ validated_of now task = ground (arith, checked, same) in
      let e'' : (submit_validated now us c (validated_of now task)).0 ≡ done c.next_id =
        rw (← v') e' in
      (
        a,
        (length-enqueued now c task w).0
            (ground (arith, submit_validated_lem now us c task w a.host, e'')),
      ),
  λ h. ap (λ p. p.0) (submit_request_ok now us c task w h.0 h.1),
)

pub Outcome-cases {ℓ} :
    {A : Type ℓ} (m : Outcome A)
    → ((a : A) × (m ≡ done a)) ⊎ (((x : ControlError) × (m ≡ failed x)) ⊎ (m ≡ panicked))
Outcome-cases (done a) = inl (a, refl)
Outcome-cases (failed x) = inr (inl (x, refl))
Outcome-cases panicked = inr (inr refl)

module _ (e : ControlError) where
  check_task-ne-failed : (c : ControlPlane) (task : HandlerTask) → check_task c task ≢ failed e
  unfolding check_task
  check_task-ne-failed c task = ground arith

  validate_request-ne-failed :
      (c : ControlPlane) (now : ℕ) (task : HandlerTask) → validate_request c now task ≢ failed e
  unfolding validate_request check_batch_size
  validate_request-ne-failed c now task = ground arith

  pub check_request-ne-failed :
      (now : ℕ) (c : ControlPlane) (task : HandlerTask) → check_request now c task ≢ failed e
  unfolding check_request
  check_request-ne-failed now c task =
      ground (arith, check_task-ne-failed c task, validate_request-ne-failed c now task)

  add_to_batch-ne-failed :
      (now : ℕ) (q : BatchQueue) (r : ValidatedRequest) → (add_to_batch now q r).0 ≢ failed e
  unfolding add_to_batch push_request flush_batch
  add_to_batch-ne-failed now q r = ground arith

  submit_validated-ne-failed :
      (now us : ℕ) (c : ControlPlane) (r : ValidatedRequest)
      → (submit_validated now us c r).0 ≢ failed e
  unfolding submit_validated
  submit_validated-ne-failed now us c r = ground (arith, add_to_batch-ne-failed now c.batch_queue r)

-- Nothing is refused by an error that the caller could handle: what is not accepted panics.
pub submit_request-ne-failed :
    (now us : ℕ) (c : ControlPlane) (task : HandlerTask) (e : ControlError)
    → (submit_request now us c task).0 ≢ failed e
unfolding submit_request
submit_request-ne-failed now us c task e =
    let checked = check_request-ne-failed e now c task in
    elim (Outcome-cases (check_request now c task)) [
      | inl (v, h) ↦ rw (h, submit_request) (submit_validated-ne-failed e now us c v)
      | inr other ↦ ground (arith, checked, other)
    ]

-- An accepted request leaves the control plane well formed.
pub submit_request-IsWellFormed :
    (now us : ℕ) (c : ControlPlane) (task : HandlerTask)
    → IsWellFormed c
    → (submit_request now us c task).0 ≡ done c.next_id
    → IsWellFormed (submit_request now us c task).1
submit_request-IsWellFormed now us c task w e =
    let (a, room) = (submit_request_iff now us c task w).0 e in
    rw (submit_request_ok now us c task w a room) (
      unfold submitted in
      record {
        ready = w.ready;
        sound = w.sound;
        queue =
            enqueued-IsOrdered now c.batch_queue _ w.queue (is_empty_of_ne task.hostname a.host);
        few = (length-enqueued now c task w).1 room;
      })

-- A request that is not its tenant's 64th waits behind the tenant's others, and the requests of
-- the other tenants stay.
pub submit_request_waits :
    (now us : ℕ) (c : ControlPlane) (task : HandlerTask) (t : Text)
    → IsWellFormed c
    → (submit_request now us c task).0 ≡ done c.next_id
    → suc (length (waiting task.hostname c.batch_queue.pending)) < batch_size_max
    → waiting t (submit_request now us c task).1.batch_queue.pending ≡ (
        if str_eq task.hostname t
        then waiting t c.batch_queue.pending ++ (validated_of now task ∷ [])
        else waiting t c.batch_queue.pending)
submit_request_waits now us c task t w e more =
    let (a, room) = (submit_request_iff now us c task w).0 e in
    rw (submit_request_ok now us c task w a room)
      (unfold submitted in enqueued_more now c.batch_queue (validated_of now task) t more)

-- The request that fills its tenant's batch is accepted too, but it and the 63 before it are
-- dropped: the tenant has nothing waiting, and no batch was given out.
pub submit_request_drops :
    (now us : ℕ) (c : ControlPlane) (task : HandlerTask)
    → IsWellFormed c
    → IsAcceptable c task
    → suc (length (waiting task.hostname c.batch_queue.pending)) ≡ batch_size_max
    → ((submit_request now us c task).0 ≡ done c.next_id)
      × (waiting task.hostname (submit_request now us c task).1.batch_queue.pending ≡ [])
submit_request_drops now us c task w a full =
    let room : HasRoom c task =
      λ missing. absurd (unfold waiting in ground (arith, full, missing)) in
    rw (submit_request_ok now us c task w a room) (
      refl,
      unfold submitted in enqueued_full now c.batch_queue (validated_of now task) w.queue full,
    )
