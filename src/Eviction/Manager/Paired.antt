-- ===== src/Eviction/Manager/Paired.antt =====
-- The two maps of the eviction manager through its calls.
use nano_rs.Common.{
  ℕ, ◌+◌, ◌%◌, ◌^◌, ◌≡◌, refl, inl, inr, Option, some, List, [], ◌∷◌, Text, get, put, get-put,
  get-del_ne, get-del_self, put-Distinct, del-Distinct, str_eq_iff, Option-cases, Bool-cases, arith,
}
use nano_rs.Eviction.Defs.{
  IsolateMetadata, increment_active, decrement_active, use_memory, is_idle, IsolateEvictionState,
  active, evicted, draining, is_active, is_draining_state, EvictionManager, EvictionConfig,
}
use nano_rs.Eviction.Manager.{
  with_config, register_isolate, unregister_isolate, record_usage, mark_active, get_metadata_mut,
  mark_complete, finish, check_draining_complete, initiate_soft_eviction, complete_soft_eviction,
  hard_evict, reactivate_isolate, clear,
}
use nano_rs.Eviction.Manager.Steps.{
  Op, registers, reactivates, unregisters, activates, completes, finishes, uses, drains, kills,
  changes, clears, step, run, IsPaired,
}

module _ {m : EvictionManager} (p : IsPaired m) where
  put_both-IsPaired :
      (id : Text) (meta : IsolateMetadata) (s : IsolateEvictionState)
      → IsPaired (record m {
        isolates = put id meta m.isolates;
        eviction_states = put id s m.eviction_states;
      })
  put_both-IsPaired id meta s = record {
    isolates = put-Distinct id meta m.isolates p.isolates;
    states = put-Distinct id s m.eviction_states p.states;
    same = λ k.
        ground (arith, p.same k, get-put id k meta m.isolates, get-put id k s m.eviction_states);
  }

  put_meta-IsPaired :
      (id : Text) (old meta : IsolateMetadata) (total : ℕ)
      → get id m.isolates ≡ some old
      → IsPaired (record m { isolates = put id meta m.isolates; total_memory = total })
  put_meta-IsPaired id old meta total found = record {
    isolates = put-Distinct id meta m.isolates p.isolates;
    states = p.states;
    same = λ k. ground (arith, found, p.same k, get-put id k meta m.isolates, str_eq_iff id k);
  }

  put_state-IsPaired :
      (id : Text) (old s : IsolateEvictionState) (n : ℕ) (t : Option ℕ)
      → get id m.eviction_states ≡ some old
      → IsPaired (record m {
        eviction_states = put id s m.eviction_states;
        evictions_total = n;
        last_eviction = t;
      })
  put_state-IsPaired id old s n t found = record {
    isolates = p.isolates;
    states = put-Distinct id s m.eviction_states p.states;
    same = λ k. ground (arith, found, p.same k, get-put id k s m.eviction_states, str_eq_iff id k);
  }

  unregister-IsPaired : (id : Text) → IsPaired (unregister_isolate id m)
  unfolding unregister_isolate
  unregister-IsPaired id = record {
    isolates = del-Distinct id m.isolates p.isolates;
    states = del-Distinct id m.eviction_states p.states;
    same = λ k. ground (
      arith,
      p.same k,
      get-del_self id m.isolates p.isolates,
      get-del_self id m.eviction_states p.states,
      get-del_ne id k m.isolates,
      get-del_ne id k m.eviction_states,
      str_eq_iff id k,
    );
  }

  mark_active-IsPaired : (id : Text) → IsPaired (mark_active id m)
  unfolding mark_active
  mark_active-IsPaired id = elim (Option-cases (get id m.isolates)) [
    | inl missing ↦ rw (missing, mark_active) p
    | inr (meta, found) ↦
        rw (found, mark_active)
          (put_meta-IsPaired id meta (increment_active meta) m.total_memory found)
  ]

  get_metadata_mut-IsPaired :
      (change : IsolateMetadata → IsolateMetadata) (id : Text)
      → IsPaired (get_metadata_mut change id m)
  unfolding get_metadata_mut
  get_metadata_mut-IsPaired change id = elim (Option-cases (get id m.isolates)) [
    | inl missing ↦ rw (missing, get_metadata_mut) p
    | inr (meta, found) ↦
        rw (found, get_metadata_mut) (put_meta-IsPaired id meta (change meta) m.total_memory found)
  ]

  finish-IsPaired :
      (id : Text) (old : IsolateEvictionState)
      → get id m.eviction_states ≡ some old
      → IsPaired (finish id m)
  unfolding finish
  finish-IsPaired id old found =
      put_state-IsPaired id old evicted ((m.evictions_total + 1) % (2 ^ 64)) m.last_eviction found

  check_draining-IsPaired : (id : Text) → IsPaired (check_draining_complete id m)
  unfolding check_draining_complete
  check_draining-IsPaired id = elim (Option-cases (get id m.isolates)) [
    | inl missing ↦ rw (missing, check_draining_complete) p
    | inr (meta, found) ↦ elim (Bool-cases (is_idle meta)) [
      | inr busy ↦ rw (found, busy, check_draining_complete) p
      | inl idle ↦ elim (Option-cases (get id m.eviction_states)) [
        | inl gone ↦ rw (found, idle, gone, check_draining_complete) p
        | inr (s, e) ↦ elim (Bool-cases (is_draining_state s)) [
          | inl d ↦ rw (found, idle, e, d, check_draining_complete) (finish-IsPaired id s e)
          | inr d ↦ rw (found, idle, e, d, check_draining_complete) p
        ]
      ]
    ]
  ]

  complete_soft-IsPaired : (id : Text) → IsPaired (complete_soft_eviction id m).1
  unfolding complete_soft_eviction
  complete_soft-IsPaired id = elim (Option-cases (get id m.eviction_states)) [
    | inl gone ↦ rw (gone, complete_soft_eviction) p
    | inr (s, e) ↦ elim (Bool-cases (is_draining_state s)) [
      | inl d ↦ rw (e, d, complete_soft_eviction) (finish-IsPaired id s e)
      | inr d ↦ rw (e, d, complete_soft_eviction) p
    ]
  ]

  initiate-IsPaired : (now : ℕ) (id : Text) → IsPaired (initiate_soft_eviction now id m).1
  unfolding initiate_soft_eviction
  initiate-IsPaired now id = elim (Option-cases (get id m.isolates)) [
    | inl missing ↦ rw (missing, initiate_soft_eviction) p
    | inr (meta, found) ↦ elim (Option-cases (get id m.eviction_states)) [
      | inl gone ↦ rw (found, gone, initiate_soft_eviction) p
      | inr (s, e) ↦ elim (Bool-cases (is_active s)) [
        | inr a ↦ rw (found, e, a, initiate_soft_eviction) p
        | inl a ↦
            rw (found, e, a, initiate_soft_eviction)
              (put_state-IsPaired id s (draining meta.active_requests) m.evictions_total (some now)
                e)
      ]
    ]
  ]

  hard_evict-IsPaired : (now : ℕ) (id : Text) → IsPaired (hard_evict now id m)
  unfolding hard_evict finish
  hard_evict-IsPaired now id = elim (Option-cases (get id m.eviction_states)) [
    | inl gone ↦ rw (gone, hard_evict) p
    | inr (s, e) ↦
        rw (e, hard_evict)
          (put_state-IsPaired id s evicted ((m.evictions_total + 1) % (2 ^ 64)) (some now) e)
  ]

  record_usage-IsPaired :
      (now : ℕ) (id : Text) (memory_bytes : ℕ) → IsPaired (record_usage now id memory_bytes m)
  unfolding record_usage
  record_usage-IsPaired now id memory_bytes = elim (Option-cases (get id m.isolates)) [
    | inl missing ↦ rw (missing, record_usage) p
    | inr (meta, found) ↦
        rw (found, record_usage)
          (put_meta-IsPaired id meta (use_memory now memory_bytes meta) _ found)
  ]

mark_complete-IsPaired :
    (m : EvictionManager) (id : Text) → IsPaired m → IsPaired (mark_complete id m)
unfolding mark_complete
mark_complete-IsPaired m id p =
    check_draining-IsPaired
      (elim (Option-cases (get id m.isolates)) [
        | inl missing ↦ rw missing p
        | inr (meta, found) ↦
            rw found (put_meta-IsPaired p id meta (decrement_active meta) m.total_memory found)
      ])
      id

pub step-IsPaired : (m : EvictionManager) (op : Op) → IsPaired m → IsPaired (step m op)
unfolding step register_isolate reactivate_isolate clear get
step-IsPaired m (registers id meta) p = put_both-IsPaired p id meta active
step-IsPaired m (reactivates id meta) p = put_both-IsPaired p id meta active
step-IsPaired m (unregisters id) p = unregister-IsPaired p id
step-IsPaired m (activates id) p = mark_active-IsPaired p id
step-IsPaired m (completes id) p = mark_complete-IsPaired m id p
step-IsPaired m (finishes id) p = complete_soft-IsPaired p id
step-IsPaired m (uses now id memory_bytes) p = record_usage-IsPaired p now id memory_bytes
step-IsPaired m (drains now id) p = initiate-IsPaired p now id
step-IsPaired m (kills now id) p = hard_evict-IsPaired p now id
step-IsPaired m (changes change id) p = get_metadata_mut-IsPaired p change id
step-IsPaired m clears p = record { isolates = tt; states = tt; same = λ k. refl }

run-IsPaired : (m : EvictionManager) (ops : List Op) → IsPaired m → IsPaired (run m ops)
unfolding run
run-IsPaired m [] p = p
run-IsPaired m (op ∷ ops) p = run-IsPaired (step m op) ops (step-IsPaired m op p)

-- After any series of calls on a new manager, an isolate has metadata exactly if it has an
-- eviction state, and each map holds an isolate once.
pub run-with_config :
    (config : EvictionConfig) (ops : List Op) → IsPaired (run (with_config config) ops)
unfolding with_config get
run-with_config config ops =
    run-IsPaired (with_config config) ops (record { isolates = tt; states = tt; same = λ k. refl })
