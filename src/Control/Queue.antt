-- ===== src/Control/Queue.antt =====
-- `BatchQueue` of src/control_plane.rs.
pub mod Drain
use nano_rs.Common.{
  ℕ, ◌+◌, ◌-◌, ◌*◌, ◌/◌, ◌%◌, ◌^◌, Bool, true, false, not, ◌&&◌, ◌||◌, Option, none, some, List, [],
  ◌∷◌, ◌++◌, Text, length, is_empty, get, put, del, ltb, leb, if◌then◌else◌,
}
use nano_rs.Control.Defs.{
  Outcome, done, failed, panicked, ◌>>=◌, ◌>>◌, assert, ValidatedRequest, RequestBatch,
  PendingBatch, BatchQueue,
}

abbrev pub in_range : ℕ → ℕ → ℕ → Bool
in_range value lo hi = leb lo value && leb value hi

unfoldable pub new : ℕ → ℕ → Outcome BatchQueue
new max_batch_size max_batch_wait_ms = do
  assert (ltb 0 max_batch_size)
  assert (ltb 0 max_batch_wait_ms)
  assert (in_range max_batch_size 1 1000)
  assert (in_range max_batch_wait_ms 1 1000)
  done (record {
    pending = [];
    max_batch_size = max_batch_size;
    max_batch_wait_ms = max_batch_wait_ms;
  })

unfoldable pub pending_count : BatchQueue → ℕ
pending_count q = length q.pending

-- `entry(id).or_insert(...)`.
unfoldable pub batch_or_new : ℕ → Text → List (Text × PendingBatch) → PendingBatch
batch_or_new now tenant_id pending = elim (get tenant_id pending) [
  | some batch ↦ batch
  | none ↦ record { requests = []; created_at = now }
]

unfoldable pub flush_batch : BatchQueue → Text → Outcome ℕ × BatchQueue
flush_batch q tenant_id = elim (get tenant_id q.pending) [
  | some batch ↦ (
    (do assert (not (is_empty batch.requests)); done (length batch.requests)),
    record q { pending = del tenant_id q.pending },
  )
  | none ↦ (done 0, q)
]

-- What remains to be done once the batch is known to have room.
unfoldable pub push_request :
    BatchQueue → Text → PendingBatch → ValidatedRequest → Outcome ℕ × BatchQueue
push_request q tenant_id batch request =
    let batch' = record batch { requests = batch.requests ++ (request ∷ []) } in
    let q' = record q { pending = put tenant_id batch' q.pending } in
    if leb q.max_batch_size (length batch'.requests)
    then flush_batch q' tenant_id
    else (done (length batch'.requests), q')

unfoldable pub add_to_batch : ℕ → BatchQueue → ValidatedRequest → Outcome ℕ × BatchQueue
add_to_batch now q request =
    let tenant_id = request.task.hostname in
    let batch = batch_or_new now tenant_id q.pending in
    if is_empty tenant_id
    then (panicked, q)
    else if ltb (length batch.requests) q.max_batch_size
    then push_request q tenant_id batch request
    else (panicked, record q { pending = put tenant_id batch q.pending })

-- `duration_since`, which stops at 0, in milliseconds as a 32-bit word.
abbrev pub age_ms : ℕ → PendingBatch → ℕ
age_ms now batch = (now - batch.created_at) / 1000000 % 2 ^ 32

abbrev pub is_due : ℕ → BatchQueue → PendingBatch → Bool
is_due now q batch =
    leb q.max_batch_size (length batch.requests) || leb q.max_batch_wait_ms (age_ms now batch)

-- The first loop of `drain_ready_batches`.
unfoldable pub ready_ids : ℕ → BatchQueue → List (Text × PendingBatch) → Outcome (List Text)
ready_ids now q [] = done []
ready_ids now q ((tenant_id, batch) ∷ m) = do
  assert (leb (age_ms now batch) (q.max_batch_wait_ms * 2))
  rest ← ready_ids now q m
  done (if is_due now q batch then tenant_id ∷ rest else rest)

-- The second loop.
unfoldable pub take_ready :
    ℕ → List Text → List (Text × PendingBatch) → List RequestBatch × List (Text × PendingBatch)
take_ready now [] m = ([], m)
take_ready now (tenant_id ∷ ids) m = elim (get tenant_id m) [
  | none ↦ take_ready now ids m
  | some batch ↦
      let (batches, m') = take_ready now ids (del tenant_id m) in
      (record { tenant_id = tenant_id; requests = batch.requests; created_at = now } ∷ batches, m')
]

unfoldable pub drain_ready_batches : ℕ → BatchQueue → Outcome (List RequestBatch) × BatchQueue
drain_ready_batches now q = elim (ready_ids now q q.pending) [
  | done ids ↦
      let (batches, m') = take_ready now ids q.pending in (done batches, record q { pending = m' })
  | failed e ↦ (failed e, q)
  | panicked ↦ (panicked, q)
]

unfoldable pub all_batches : List (Text × PendingBatch) → List RequestBatch
all_batches [] = []
all_batches ((tenant_id, batch) ∷ m) =
    let rest = all_batches m in
    if is_empty batch.requests
    then rest
    else record { tenant_id = tenant_id; requests = batch.requests; created_at = batch.created_at }
      ∷ rest

unfoldable pub drain_all_batches : BatchQueue → List RequestBatch × BatchQueue
drain_all_batches q = (all_batches q.pending, record q { pending = [] })
