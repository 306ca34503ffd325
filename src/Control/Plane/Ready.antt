-- ===== src/Control/Plane/Ready.antt =====
-- The batches that a drain gives out, and the checks of `process_batches`.
use nano_rs.Common.{
  ℕ, ◌+◌, ◌*◌, ◌≤◌, ◌<◌, ◌≡◌, refl, ◌≢◌, inl, inr, false, List, [], ◌∷◌, Text, length, is_empty,
  get, del, length-del, Entries, del-Entries, get-Entries, All, if◌then◌else◌, Option-cases, arith,
}
use nano_rs.Control.Defs.{
  batch_size_max, done, ValidatedRequest, RequestBatch, PendingBatch, BatchQueue, ControlPlane,
}
use nano_rs.Control.Queue.{age_ms, is_due, ready_ids, take_ready}
use nano_rs.Control.Queue.Drain.{ready_ids-cons}
use nano_rs.Control.Plane.{check_batches, count_flushed}
use nano_rs.Control.Plane.Invariant.{IsPending}

-- No batch is older than twice the longest wait, 20 ms.
abbrev pub Fresh : ℕ → BatchQueue → List (Text × PendingBatch) → Type 0
Fresh now q = Entries (λ _ b. age_ms now b ≤ q.max_batch_wait_ms * 2)

pub ready_ids_of_Fresh :
    (now : ℕ) (q : BatchQueue) (m : List (Text × PendingBatch))
    → Fresh now q m
    → (ids : List Text) × (ready_ids now q m ≡ done ids)
unfolding ready_ids
ready_ids_of_Fresh now q [] f = ([], refl)
ready_ids_of_Fresh now q ((k, b) ∷ m) f =
    let (ids, e) = ready_ids_of_Fresh now q m f.1 in
    ((if is_due now q b then k ∷ ids else ids), ground (arith, f.0, e))

pub Fresh-of_ready_ids :
    (now : ℕ) (q : BatchQueue) (m : List (Text × PendingBatch)) (ids : List Text)
    → ready_ids now q m ≡ done ids
    → Fresh now q m
Fresh-of_ready_ids now q [] ids e = tt
Fresh-of_ready_ids now q ((k, b) ∷ m) ids e =
    let (rest, e', _, fresh) = ready_ids-cons now q k b m ids e in
    (fresh, Fresh-of_ready_ids now q m rest e')

-- A batch that is given out: a tenant's name, and up to 64 requests of that tenant.
pub record IsBatch (b : RequestBatch) : Type 0 where
  pub named : b.tenant_id ≢ []
  pub filled : 0 < length b.requests
  pub small : length b.requests ≤ batch_size_max
  pub own : All (λ (r : ValidatedRequest). r.task.hostname ≡ b.tenant_id) b.requests

pub take_ready-IsBatch :
    (now : ℕ) (ids : List Text) (m : List (Text × PendingBatch))
    → Entries IsPending m
    → All IsBatch (take_ready now ids m).0 × Entries IsPending (take_ready now ids m).1
unfolding take_ready
take_ready-IsBatch now [] m h = (tt, h)
take_ready-IsBatch now (k ∷ ids) m h = elim (Option-cases (get k m)) [
  | inl missing ↦ rw (missing, take_ready) (take_ready-IsBatch now ids m h)
  | inr (b, found) ↦
      let p = get-Entries IsPending k m b h found in
      let (batches, left) = take_ready-IsBatch now ids (del k m) (del-Entries IsPending k m h) in
      rw (found, take_ready)
        (
          (
            record {
              named = p.named;
              filled = p.filled;
              small = omega (arith, p.room);
              own = p.own;
            },
            batches,
          ),
          left,
        )
]

pub length-take_ready :
    (now : ℕ) (ids : List Text) (m : List (Text × PendingBatch))
    → length (take_ready now ids m).0 + length (take_ready now ids m).1 ≡ length m
unfolding take_ready
length-take_ready now [] m = omega arith
length-take_ready now (k ∷ ids) m =
    ground (arith, length-take_ready now ids m, length-take_ready now ids (del k m), length-del k m)

pub positive-is_empty {ℓ} : {A : Type ℓ} (xs : List A) → 0 < length xs → is_empty xs ≡ false
positive-is_empty [] h = elim h [ ]
positive-is_empty (x ∷ xs) h = refl

ne-is_empty : (s : Text) → s ≢ [] → is_empty s ≡ false
ne-is_empty [] h = absurd (h refl)
ne-is_empty (c ∷ s) h = refl

pub check_batches_ok : (bs : List RequestBatch) → All IsBatch bs → check_batches bs ≡ done tt
unfolding check_batches
check_batches_ok [] h = refl
check_batches_ok (b ∷ bs) h = ground (
  arith,
  h.0.filled,
  h.0.small,
  positive-is_empty b.requests h.0.filled,
  ne-is_empty b.tenant_id h.0.named,
  check_batches_ok bs h.1,
)

-- The state after the batches have left.
unfoldable pub processed : ControlPlane → List RequestBatch → BatchQueue → ControlPlane
processed c bs q = record c { batch_queue = q; metrics = count_flushed bs c.metrics }
