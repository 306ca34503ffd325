-- ===== src/Control/Queue/Drain.antt =====
-- What `drain_ready_batches` gives out and what stays, tenant by tenant.
use mathlib.Core.List.{append-nil, append_assoc}
use nano_rs.Common.{
  ℕ, ◌*◌, ◌≤◌, ◌≡◌, refl, sym, ap, ◌∙◌, inl, inr, Bool, true, false, List, [], ◌∷◌, ◌++◌, Option,
  none, some, Text, get, del, Distinct, get-del_ne, get-del_self, del-Distinct, str_eq, str_eq_iff,
  if◌then◌else◌, Option-cases, Bool-cases, arith,
}
use nano_rs.Control.Defs.{done, ValidatedRequest, RequestBatch, PendingBatch, BatchQueue}
use nano_rs.Control.Queue.{age_ms, is_due, ready_ids, take_ready, drain_ready_batches}

-- The requests of a tenant in a series of batches, and those that wait for it.
unfoldable pub requests_of : Text → List RequestBatch → List ValidatedRequest
requests_of t [] = []
requests_of t (b ∷ bs) =
    let rest = requests_of t bs in if str_eq b.tenant_id t then b.requests ++ rest else rest

unfoldable pub waiting : Text → List (Text × PendingBatch) → List ValidatedRequest
waiting t m = elim (get t m) [ some b ↦ b.requests | none ↦ [] ]

waiting-del :
    (t k : Text) (m : List (Text × PendingBatch))
    → Distinct m
    → waiting t (del k m) ≡ (if str_eq k t then [] else waiting t m)
unfolding waiting
waiting-del t k m d = ground (arith, str_eq_iff k t, get-del_self k m d, get-del_ne k t m)

pub take_ready-Distinct :
    (now : ℕ) (ids : List Text) (m : List (Text × PendingBatch))
    → Distinct m
    → Distinct (take_ready now ids m).1
unfolding take_ready
take_ready-Distinct now [] m d = d
take_ready-Distinct now (k ∷ ids) m d = ground (
  arith,
  take_ready-Distinct now ids m d,
  take_ready-Distinct now ids (del k m) (del-Distinct k m d),
)

waiting_found :
    (k t : Text) (m : List (Text × PendingBatch)) (b : PendingBatch)
    → str_eq k t ≡ true
    → get k m ≡ some b
    → waiting t m ≡ b.requests
unfolding waiting
waiting_found k t m b same found = ground (arith, str_eq_iff k t)

take_ready-waiting :
    (now : ℕ) (t : Text) (ids : List Text) (m : List (Text × PendingBatch))
    → Distinct m
    → requests_of t (take_ready now ids m).0 ++ waiting t (take_ready now ids m).1 ≡ waiting t m
unfolding take_ready requests_of
take_ready-waiting now t [] m d = refl
take_ready-waiting now t (k ∷ ids) m d =
    let tail = take_ready-waiting now t ids (del k m) (del-Distinct k m d) ∙ waiting-del t k m d in
    elim (Option-cases (get k m)) [
      | inl missing ↦ rw (missing, take_ready) (take_ready-waiting now t ids m d)
      | inr (b, found) ↦ elim (Bool-cases (str_eq k t)) [
        | inl same ↦
            rw (found, take_ready, same)
              (append_assoc b.requests _ _
                ∙ ap (◌++◌ b.requests) (tail ∙ ap (λ c. if c then [] else waiting t m) same)
                ∙ append-nil b.requests
                ∙ sym (waiting_found k t m b same found))
        | inr other ↦
            rw (found, take_ready, other) (tail ∙ ap (λ c. if c then [] else waiting t m) other)
      ]
    ]

elem : Text → List Text → Bool
elem t [] = false
elem t (k ∷ ids) = if str_eq k t then true else elem t ids

pub ready_ids-cons :
    (now : ℕ) (q : BatchQueue) (k : Text) (b : PendingBatch) (m : List (Text × PendingBatch))
    (ids : List Text)
    → ready_ids now q ((k, b) ∷ m) ≡ done ids
    → (rest : List Text) × (ready_ids now q m ≡ done rest)
      × (ids ≡ (if is_due now q b then k ∷ rest else rest))
      × (age_ms now b ≤ q.max_batch_wait_ms * 2)
unfolding ready_ids
ready_ids-cons now q k b m ids e = ground arith

-- The keys of the due batches.
ready_ids-elem :
    (now : ℕ) (q : BatchQueue) (t : Text) (m : List (Text × PendingBatch)) (ids : List Text)
    → Distinct m
    → ready_ids now q m ≡ done ids
    → elem t ids ≡ (elim (get t m) [ none ↦ false | some b ↦ is_due now q b ])
unfolding ready_ids elem get
ready_ids-elem now q t [] ids d e = ground arith
ready_ids-elem now q t ((k, b) ∷ m) ids d e =
    let (rest, e', chosen, _) = ready_ids-cons now q k b m ids e in
    let ih = ready_ids-elem now q t m rest d.1 e' in
    rw (chosen, elem)
      (elim (Bool-cases (str_eq k t)) [
        | inl same ↦
            let gone : get t m ≡ none = ground (arith, d.0, str_eq_iff k t) in
            rw (same, get) (ground (arith, ih, gone))
        | inr other ↦ rw (other, get) (ground (arith, ih))
      ])

get-take_ready :
    (now : ℕ) (t : Text) (ids : List Text) (m : List (Text × PendingBatch))
    → Distinct m
    → get t (take_ready now ids m).1 ≡ (if elem t ids then none else get t m)
unfolding take_ready elem
get-take_ready now t [] m d = refl
get-take_ready now t (k ∷ ids) m d = ground (
  arith,
  get-take_ready now t ids m d,
  get-take_ready now t ids (del k m) (del-Distinct k m d),
  get-del_self k m d,
  get-del_ne k t m,
  str_eq_iff k t,
)

-- The entry of a tenant after a drain: gone if it was due, and else as it was.
pub remaining : ℕ → BatchQueue → Option PendingBatch → Option PendingBatch
remaining now q none = none
remaining now q (some b) = if is_due now q b then none else some b

drain_ready_batches-cases :
    (now : ℕ) (q q' : BatchQueue) (bs : List RequestBatch)
    → drain_ready_batches now q ≡ (done bs, q')
    → (ids : List Text) × (ready_ids now q q.pending ≡ done ids)
      × (bs ≡ (take_ready now ids q.pending).0)
      × (q' ≡ record q { pending = (take_ready now ids q.pending).1 })
unfolding drain_ready_batches
drain_ready_batches-cases now q q' bs e = ground arith

module _ (now : ℕ) (q q' : BatchQueue) (bs : List RequestBatch) (d : Distinct q.pending)
    (e : drain_ready_batches now q ≡ (done bs, q')) where
  -- What is given out and what still waits are what waited, in the same order.
  pub drain-conserves : (t : Text) → requests_of t bs ++ waiting t q'.pending ≡ waiting t q.pending
  drain-conserves t =
      let (ids, _, same, same') = drain_ready_batches-cases now q q' bs e in
      rw (same, same') (take_ready-waiting now t ids q.pending d)

  -- Exactly the due batches leave.
  pub drain-remaining : (t : Text) → get t q'.pending ≡ remaining now q (get t q.pending)
  unfolding remaining
  drain-remaining t =
      let (ids, ready, _, same') = drain_ready_batches-cases now q q' bs e in
      rw same' (
        ground (
          arith,
          get-take_ready now t ids q.pending d,
          ready_ids-elem now q t q.pending ids d ready,
        ))

  pub drain-Distinct : Distinct q'.pending
  drain-Distinct =
      let (ids, _, _, same') = drain_ready_batches-cases now q q' bs e in
      rw same' (take_ready-Distinct now ids q.pending d)
