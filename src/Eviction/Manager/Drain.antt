-- ===== src/Eviction/Manager/Drain.antt =====
-- A soft eviction: `mark_complete` on an isolate that drains.
use nano_rs.Common.{
  ℕ, zero, suc, ◌+◌, ◌%◌, ◌^◌, ◌<◌, ◌≡◌, refl, sym, subst, true, inl, inr, some, Text, get, put,
  get-put, str_eq_refl, Option-cases, arith,
}
use nano_rs.Eviction.Defs.{
  IsolateMetadata, decrement_active, IsolateEvictionState, evicted, is_draining_state,
  EvictionManager,
}
use nano_rs.Eviction.Manager.{
  mark_complete, finish, check_draining_complete, is_evicted, is_draining,
}

-- `n` requests of the isolate complete.
abbrev pub complete_all : ℕ → Text → EvictionManager → EvictionManager
complete_all zero id m = m
complete_all (suc n) id m = complete_all n id (mark_complete id m)

module _ (id : Text) (m : EvictionManager) (meta : IsolateMetadata) (s : IsolateEvictionState)
    (found : get id m.isolates ≡ some meta) (draining_now : get id m.eviction_states ≡ some s)
    (drains : is_draining_state s ≡ true) where
  after : EvictionManager
  after = record m { isolates = put id (decrement_active meta) m.isolates }

  stored : get id after.isolates ≡ some (decrement_active meta)
  unfolding after
  stored = ground (arith, str_eq_refl id, get-put id id (decrement_active meta) m.isolates)

  still : is_draining id after ≡ true
  unfolding after is_draining
  still = ground (arith, draining_now, drains)

  mark_complete_busy : (n : ℕ) → meta.active_requests ≡ suc (suc n) → mark_complete id m ≡ after
  unfolding mark_complete check_draining_complete after decrement_active
  mark_complete_busy n many =
      ground (arith, found, many, str_eq_refl id, get-put id id (decrement_active meta) m.isolates)

  mark_complete_last : meta.active_requests ≡ 1 → mark_complete id m ≡ finish id after
  unfolding mark_complete check_draining_complete after decrement_active
  mark_complete_last one = ground (
    arith,
    found,
    one,
    drains,
    draining_now,
    str_eq_refl id,
    get-put id id (decrement_active meta) m.isolates,
  )

less_active :
    (n : ℕ) (meta : IsolateMetadata)
    → suc n < meta.active_requests
    → n < (decrement_active meta).active_requests
unfolding decrement_active
less_active n meta h = ground arith

one_less :
    (n : ℕ) (meta : IsolateMetadata)
    → meta.active_requests ≡ suc (suc n)
    → (decrement_active meta).active_requests ≡ suc n
unfolding decrement_active
one_less n meta h = ground arith

several : (k a : ℕ) → suc k < a → (n : ℕ) × (a ≡ suc (suc n))
several k zero h = (0, omega (arith, h))
several k (suc zero) h = (0, omega (arith, h))
several k (suc (suc n)) h = (n, refl)

draining_state :
    (id : Text) (m : EvictionManager)
    → is_draining id m ≡ true
    → (s : IsolateEvictionState) × (get id m.eviction_states ≡ some s)
      × (is_draining_state s ≡ true)
unfolding is_draining
draining_state id m h = elim (Option-cases (get id m.eviction_states)) [
  | inl gone ↦ ground (arith, gone, h)
  | inr (s, e) ↦ (s, e, ground (arith, e, h))
]

-- While requests of a draining isolate are running, it drains: it does so after fewer of them have
-- completed than were running.
pub complete_all-draining :
    (k : ℕ) (id : Text) (m : EvictionManager) (meta : IsolateMetadata)
    → is_draining id m ≡ true
    → get id m.isolates ≡ some meta
    → k < meta.active_requests
    → is_draining id (complete_all k id m) ≡ true
complete_all-draining zero id m meta d found less = d
complete_all-draining (suc k) id m meta d found less =
    let (s, e, q) = draining_state id m d in
    let (n, many) = several k meta.active_requests less in
    rw (mark_complete_busy id m meta s found e q n many) (
      complete_all-draining k id (after id m meta s found e q) (decrement_active meta)
        (still id m meta s found e q) (stored id m meta s found e q) (less_active k meta less))

-- When all the running requests of a draining isolate have completed, one or more, it is evicted, and
-- the evictions are counted up by one.
pub complete_all-evicted :
    (n : ℕ) (id : Text) (m : EvictionManager) (meta : IsolateMetadata)
    → is_draining id m ≡ true
    → get id m.isolates ≡ some meta
    → meta.active_requests ≡ suc n
    → (is_evicted id (complete_all (suc n) id m) ≡ true)
      × ((complete_all (suc n) id m).evictions_total ≡ (m.evictions_total + 1) % (2 ^ 64))
unfolding is_evicted finish after
complete_all-evicted zero id m meta d found count =
    let (s, e, q) = draining_state id m d in
    rw (mark_complete_last id m meta s found e q count)
      (ground (arith, str_eq_refl id, get-put id id evicted m.eviction_states), refl)
complete_all-evicted (suc n) id m meta d found count =
    let (s, e, q) = draining_state id m d in
    subst
      (λ x.
        (is_evicted id (complete_all (suc n) id x) ≡ true)
        × ((complete_all (suc n) id x).evictions_total ≡ (m.evictions_total + 1) % (2 ^ 64)))
      (sym (mark_complete_busy id m meta s found e q n count))
      (complete_all-evicted n id (after id m meta s found e q) (decrement_active meta)
        (still id m meta s found e q) (stored id m meta s found e q) (one_less n meta count))
