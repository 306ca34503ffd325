-- ===== src/Eviction/Manager/Forward.antt =====
-- The state of an isolate through the calls of the eviction manager.
use nano_rs.Common.{
  ℕ, ◌≤◌, ◌≡◌, Bool, true, false, inl, inr, none, some, List, [], ◌∷◌, Text, get, put, get-put,
  get-del_ne, get-del_self, str_eq, str_eq_iff, if◌then◌else◌, Option-cases, Bool-cases, arith,
  ◌||◌,
}
use nano_rs.Eviction.Defs.{
  decrement_active, IsolateEvictionState, active, evicted, draining, EvictionManager,
}
use nano_rs.Eviction.Manager.{
  register_isolate, unregister_isolate, record_usage, mark_active, get_metadata_mut, mark_complete,
  finish, check_draining_complete, initiate_soft_eviction, complete_soft_eviction, hard_evict,
  reactivate_isolate, clear, is_evicted, is_draining, can_accept_requests,
}
use nano_rs.Eviction.Manager.Paired.{step-IsPaired}
use nano_rs.Eviction.Manager.Steps.{
  Op, registers, reactivates, unregisters, activates, completes, finishes, uses, drains, kills,
  changes, clears, step, run, IsPaired,
}

-- How far the isolate is: 0 active, 1 draining, 2 evicted, and 3 for one that is not known.
abbrev rank_of : IsolateEvictionState → ℕ
rank_of active = 0
rank_of (draining _) = 1
rank_of evicted = 2

abbrev pub rank : Text → EvictionManager → ℕ
rank id m = elim (get id m.eviction_states) [ none ↦ 3 | some s ↦ rank_of s ]

-- The calls that make the isolate anew.
abbrev pub resets : Text → Op → Bool
resets id (registers k _) = str_eq k id
resets id (reactivates k _) = str_eq k id
resets id _ = false

abbrev pub keeps : Text → List Op → Bool
keeps id [] = true
keeps id (op ∷ ops) = if resets id op then false else keeps id ops

check_draining-rank :
    (id k : Text) (m : EvictionManager) → rank id m ≤ rank id (check_draining_complete k m)
unfolding check_draining_complete finish
check_draining-rank id k m = ground (arith, str_eq_iff k id, get-put k id evicted m.eviction_states)

rank_bound : (id : Text) (m : EvictionManager) → rank id m ≤ 3
rank_bound id m = ground arith

mark_complete-rank : (id k : Text) (m : EvictionManager) → rank id m ≤ rank id (mark_complete k m)
unfolding mark_complete
mark_complete-rank id k m = elim (Option-cases (get k m.isolates)) [
  | inl missing ↦ rw missing (check_draining-rank id k m)
  | inr (meta, found) ↦
      rw found (
        check_draining-rank id k (record m { isolates = put k (decrement_active meta) m.isolates }))
]

initiate-rank :
    (id k : Text) (now : ℕ) (m : EvictionManager)
    → rank id m ≤ rank id (initiate_soft_eviction now k m).1
unfolding initiate_soft_eviction
initiate-rank id k now m = elim (Option-cases (get k m.isolates)) [
  | inl missing ↦ ground (arith, missing)
  | inr (meta, found) ↦ ground (
    arith,
    found,
    str_eq_iff k id,
    get-put k id (draining meta.active_requests) m.eviction_states,
  )
]

step-rank :
    (id : Text) (m : EvictionManager) (op : Op)
    → IsPaired m
    → resets id op ≡ false
    → rank id m ≤ rank id (step m op)
unfolding step register_isolate unregister_isolate record_usage mark_active get_metadata_mut finish
    complete_soft_eviction hard_evict reactivate_isolate clear get
step-rank id m (registers k meta) p h = ground (arith, get-put k id active m.eviction_states)
step-rank id m (reactivates k meta) p h = ground (arith, get-put k id active m.eviction_states)
step-rank id m (unregisters k) p h = ground (
  arith,
  str_eq_iff k id,
  get-del_self k m.eviction_states p.states,
  get-del_ne k id m.eviction_states,
)
step-rank id m (activates k) p h = ground arith
step-rank id m (completes k) p h = mark_complete-rank id k m
step-rank id m (finishes k) p h =
    ground (arith, str_eq_iff k id, get-put k id evicted m.eviction_states)
step-rank id m (uses now k memory_bytes) p h = ground arith
step-rank id m (drains now k) p h = initiate-rank id k now m
step-rank id m (kills now k) p h =
    ground (arith, str_eq_iff k id, get-put k id evicted m.eviction_states)
step-rank id m (changes change k) p h = ground arith
step-rank id m clears p h = rank_bound id m

-- In a manager whose maps are in step, no series of calls that neither registers nor reactivates an
-- isolate moves it back: its rank (active, draining, evicted, unknown) does not go down.
pub run-rank :
    (id : Text) (m : EvictionManager) (ops : List Op)
    → IsPaired m
    → keeps id ops ≡ true
    → rank id m ≤ rank id (run m ops)
unfolding run
run-rank id m [] p h = ground arith
run-rank id m (op ∷ ops) p h = elim (Bool-cases (resets id op)) [
  | inl r ↦ ground (arith, r, h)
  | inr r ↦
      let first = step-rank id m op p r in
      let rest = run-rank id (step m op) ops (step-IsPaired m op p) (ground (arith, r, h)) in
      omega (arith, first, rest)
]

-- In a manager whose maps are in step, an isolate that is draining or evicted takes no request after any series of calls that
-- neither registers nor reactivates it.
pub run-can_accept_requests :
    (id : Text) (m : EvictionManager) (ops : List Op)
    → IsPaired m
    → (is_draining id m || is_evicted id m) ≡ true
    → keeps id ops ≡ true
    → can_accept_requests id (run m ops) ≡ false
unfolding is_draining is_evicted can_accept_requests
run-can_accept_requests id m ops p h k = ground (arith, run-rank id m ops p k, h)
