-- ===== src/Control/Plane/Invariant.antt =====
-- When the control plane is well formed, and what one more request does to its queue.
use nano_rs.Common.{
  ℕ, suc, ◌≤◌, ◌<◌, ◌≡◌, refl, ◌≢◌, inl, inr, true, false, List, [], ◌∷◌, ◌++◌, Text, length,
  length-append, is_empty, get, put, del, get-put, Distinct, put-Distinct, del-Distinct, Entries,
  put-Entries, del-Entries, del-put, get-Entries, str_eq_refl, All, All-append, ◌==◌, if◌then◌else◌,
  Option-cases, Bool-cases, arith,
}
use nano_rs.Control.Defs.{
  batch_size_max, batch_wait_ms, max_pending_batches, done, ValidatedRequest, PendingBatch,
  BatchQueue, ControlPlane,
}
use nano_rs.Control.Queue.{batch_or_new, push_request, flush_batch, add_to_batch}

-- A waiting batch: not empty, with room for one more, all of the tenant that it stands under.
pub record IsPending (k : Text) (b : PendingBatch) : Type 0 where
  pub named : k ≢ []
  pub filled : 0 < length b.requests
  pub room : length b.requests < batch_size_max
  pub own : All (λ (r : ValidatedRequest). r.task.hostname ≡ k) b.requests

pub record IsOrdered (q : BatchQueue) : Type 0 where
  pub size : q.max_batch_size ≡ batch_size_max
  pub wait : q.max_batch_wait_ms ≡ batch_wait_ms
  pub distinct : Distinct q.pending
  pub batches : Entries IsPending q.pending

pub record IsWellFormed (c : ControlPlane) : Type 0 where
  pub ready : c.is_initialized ≡ true
  pub sound : c.poisoned ≡ false
  pub queue : IsOrdered c.batch_queue
  pub few : length c.batch_queue.pending ≤ max_pending_batches

-- The requests that a tenant has waiting, then the new one.
unfoldable pub appended : ℕ → BatchQueue → ValidatedRequest → PendingBatch
appended now q r =
    let b = batch_or_new now r.task.hostname q.pending in
    record b { requests = b.requests ++ (r ∷ []) }

length-appended :
    (now : ℕ) (q : BatchQueue) (r : ValidatedRequest)
    → length (appended now q r).requests
      ≡ suc (length (batch_or_new now r.task.hostname q.pending).requests)
unfolding appended
length-appended now q r =
    omega (arith, length-append (batch_or_new now r.task.hostname q.pending).requests (r ∷ []))

batch_or_new-own :
    (now : ℕ) (q : BatchQueue) (k : Text)
    → IsOrdered q
    → (length (batch_or_new now k q.pending).requests < batch_size_max)
      × All (λ (r : ValidatedRequest). r.task.hostname ≡ k) (batch_or_new now k q.pending).requests
unfolding batch_or_new
batch_or_new-own now q k o = elim (Option-cases (get k q.pending)) [
  | inl missing ↦ rw (missing, batch_or_new) (omega arith, tt)
  | inr (b, found) ↦
      let p = get-Entries IsPending k q.pending b o.batches found in
      rw (found, batch_or_new) (p.room, p.own)
]

-- The queue after one more request. A batch that it fills is taken out.
unfoldable pub enqueued : ℕ → BatchQueue → ValidatedRequest → BatchQueue
enqueued now q r =
    let k = r.task.hostname in
    let b = appended now q r in
    let m = put k b q.pending in
    record q { pending = if length b.requests == batch_size_max then del k m else m }

is_empty-append {ℓ} : {A : Type ℓ} (xs : List A) (x : A) → is_empty (xs ++ (x ∷ [])) ≡ false
is_empty-append [] x = refl
is_empty-append (y ∷ xs) x = refl

pub add_to_batch_lem :
    (now : ℕ) (q : BatchQueue) (r : ValidatedRequest)
    → IsOrdered q
    → is_empty r.task.hostname ≡ false
    → add_to_batch now q r ≡ (done (length (appended now q r).requests), enqueued now q r)
unfolding add_to_batch push_request flush_batch enqueued appended
add_to_batch_lem now q r o h =
    let k = r.task.hostname in
    let old = batch_or_new now k q.pending in
    ground (
      arith,
      o.size,
      h,
      (batch_or_new-own now q k o).0,
      length-append old.requests (r ∷ []),
      is_empty-append old.requests r,
      get-put k k (appended now q r) q.pending,
      str_eq_refl k,
    )

appended-IsPending :
    (now : ℕ) (q : BatchQueue) (r : ValidatedRequest)
    → IsOrdered q
    → r.task.hostname ≢ []
    → (length (appended now q r).requests == batch_size_max) ≡ false
    → IsPending r.task.hostname (appended now q r)
appended-IsPending now q r o h more =
    let old = batch_or_new now r.task.hostname q.pending in
    let (room, own) = batch_or_new-own now q r.task.hostname o in
    let size = length-appended now q r in
    record {
      named = h;
      filled = omega (arith, size);
      room = ground (arith, size, more, room);
      own = unfold appended in All-append _ old.requests (r ∷ []) own (refl, tt);
    }

pub enqueued-IsOrdered :
    (now : ℕ) (q : BatchQueue) (r : ValidatedRequest)
    → IsOrdered q
    → r.task.hostname ≢ []
    → IsOrdered (enqueued now q r)
enqueued-IsOrdered now q r o h =
    let k = r.task.hostname in
    let b = appended now q r in
    let distinct = put-Distinct k b q.pending o.distinct in
    elim (Bool-cases (length b.requests == batch_size_max)) [
      | inl full ↦ record {
        size = unfold enqueued in o.size;
        wait = unfold enqueued in o.wait;
        distinct = unfold enqueued in rw full (del-Distinct k _ distinct);
        batches =
            unfold enqueued in
            rw (full, del-put k b q.pending) (del-Entries IsPending k q.pending o.batches);
      }
      | inr more ↦ record {
        size = unfold enqueued in o.size;
        wait = unfold enqueued in o.wait;
        distinct = unfold enqueued in rw more distinct;
        batches =
            unfold enqueued in
            rw more
              (put-Entries IsPending k b q.pending o.batches (appended-IsPending now q r o h more));
      }
    ]
