-- ===== src/Eviction/Manager.antt =====
-- `EvictionManager` of src/worker/eviction.rs: each method gives the new state.
pub mod Steps
pub mod Paired
pub mod Forward
pub mod Drain
pub mod Pressure
use nano_rs.Common.{
  ℕ, ◌+◌, ◌-◌, ◌*◌, ◌/◌, ◌%◌, ◌^◌, Bool, true, false, not, ◌&&◌, Option, none, some, List, [], ◌∷◌,
  Text, length, is_empty, get, put, del, weight, ltb, ◌==◌, if◌then◌else◌,
}
use nano_rs.Eviction.Defs.{
  MemoryPressureLevel, normal, warning, critical, emergency, requires_eviction, IsolateMetadata,
  use_memory, increment_active, decrement_active, is_idle, word, EvictionAction, allow, throttle,
  soft_evict, hard_evict_of, IsolateEvictionState, active, evicted, draining, is_active,
  is_draining_state, is_evicted_state, EvictionConfig, default_config, EvictionManager,
}
use nano_rs.Eviction.Victims.{select_victims}

unfoldable pub with_config : EvictionConfig → EvictionManager
with_config config = record {
  config = config;
  isolates = [];
  eviction_states = [];
  total_memory = 0;
  evictions_total = 0;
  last_eviction = none;
}

unfoldable pub new : EvictionManager
unfolding with_config
new = with_config default_config

unfoldable pub register_isolate : Text → IsolateMetadata → EvictionManager → EvictionManager
register_isolate id metadata m = record m {
  isolates = put id metadata m.isolates;
  eviction_states = put id active m.eviction_states;
}

unfoldable pub unregister_isolate : Text → EvictionManager → EvictionManager
unregister_isolate id m = record m {
  isolates = del id m.isolates;
  eviction_states = del id m.eviction_states;
}

unfoldable pub record_usage : ℕ → Text → ℕ → EvictionManager → EvictionManager
record_usage now id memory_bytes m = elim (get id m.isolates) [
  | none ↦ m
  | some meta ↦
      let isolates = put id (use_memory now memory_bytes meta) m.isolates in
      record m {
        isolates = isolates;
        total_memory = weight (λ (a : IsolateMetadata). a.memory_footprint) isolates % word;
      }
]

unfoldable pub mark_active : Text → EvictionManager → EvictionManager
mark_active id m = elim (get id m.isolates) [
  | none ↦ m
  | some meta ↦ record m { isolates = put id (increment_active meta) m.isolates }
]

-- `get_metadata_mut`: the caller changes the metadata through the reference.
unfoldable pub get_metadata_mut :
    (IsolateMetadata → IsolateMetadata) → Text → EvictionManager → EvictionManager
get_metadata_mut change id m = elim (get id m.isolates) [
  | none ↦ m
  | some meta ↦ record m { isolates = put id (change meta) m.isolates }
]

-- The change that ends a draining, here and in `complete_soft_eviction`.
unfoldable pub finish : Text → EvictionManager → EvictionManager
finish id m = record m {
  eviction_states = put id evicted m.eviction_states;
  evictions_total = (m.evictions_total + 1) % word;
}

unfoldable pub check_draining_complete : Text → EvictionManager → EvictionManager
check_draining_complete id m = elim (get id m.isolates) [
  | none ↦ m
  | some meta ↦
      if is_idle meta
      then elim (get id m.eviction_states) [
        | none ↦ m
        | some state ↦ if is_draining_state state then finish id m else m
      ]
      else m
]

unfoldable pub mark_complete : Text → EvictionManager → EvictionManager
mark_complete id m = check_draining_complete id (elim (get id m.isolates) [
  | none ↦ m
  | some meta ↦ record m { isolates = put id (decrement_active meta) m.isolates }
])

abbrev has_state : (IsolateEvictionState → Bool) → Text → EvictionManager → Bool
has_state p id m = elim (get id m.eviction_states) [ none ↦ false | some s ↦ p s ]

unfoldable pub is_draining : Text → EvictionManager → Bool
is_draining = has_state is_draining_state

unfoldable pub is_evicted : Text → EvictionManager → Bool
is_evicted = has_state is_evicted_state

unfoldable pub can_accept_requests : Text → EvictionManager → Bool
can_accept_requests = has_state is_active

-- Less than `cooldown_secs` whole seconds have passed since the last eviction.
abbrev pub cooling : ℕ → EvictionManager → Bool
cooling now m = elim m.last_eviction [
  | none ↦ false
  | some last ↦ ltb ((now - last) / 1000000000) m.config.cooldown_secs
]

unfoldable pub evaluate_pressure :
    (Text → ℕ) → ℕ → ℕ → EvictionManager → MemoryPressureLevel → EvictionAction
evaluate_pressure hash seed now m level =
    if cooling now m then (if requires_eviction level then throttle else allow) else elim level [
      | normal ↦ allow
      | warning ↦ throttle
      | critical ↦
          let victims = select_victims hash seed now m m.config.target_eviction_count true in
          if is_empty victims then throttle else soft_evict victims
      | emergency ↦
          let victims =
            select_victims hash seed now m (m.config.target_eviction_count * 2 % word) false in
          if is_empty victims then soft_evict [] else hard_evict_of victims
    ]

unfoldable pub initiate_soft_eviction : ℕ → Text → EvictionManager → Bool × EvictionManager
initiate_soft_eviction now id m = elim (get id m.isolates) [
  | none ↦ (false, m)
  | some meta ↦ elim (get id m.eviction_states) [
    | none ↦ (false, m)
    | some state ↦
        if is_active state
        then (
          true,
          record m {
            eviction_states = put id (draining meta.active_requests) m.eviction_states;
            last_eviction = some now;
          },
        )
        else (false, m)
  ]
]

unfoldable pub complete_soft_eviction : Text → EvictionManager → Bool × EvictionManager
complete_soft_eviction id m = elim (get id m.eviction_states) [
  | none ↦ (false, m)
  | some state ↦ if is_draining_state state then (true, finish id m) else (false, m)
]

unfoldable pub hard_evict : ℕ → Text → EvictionManager → EvictionManager
hard_evict now id m = elim (get id m.eviction_states) [
  | none ↦ m
  | some _ ↦ record (finish id m) { last_eviction = some now }
]

unfoldable pub reactivate_isolate : Text → IsolateMetadata → EvictionManager → EvictionManager
reactivate_isolate id new_metadata m = record m {
  isolates = put id new_metadata m.isolates;
  eviction_states = put id active m.eviction_states;
}

-- How many are active, draining and evicted.
abbrev count_state : IsolateEvictionState → ℕ × ℕ × ℕ → ℕ × ℕ × ℕ
count_state active (a, d, e) = (a + 1, d, e)
count_state (draining _) (a, d, e) = (a, d + 1, e)
count_state evicted (a, d, e) = (a, d, e + 1)

count_states : List (Text × IsolateEvictionState) → ℕ × ℕ × ℕ
count_states [] = (0, 0, 0)
count_states ((_, s) ∷ m) = count_state s (count_states m)

unfoldable pub state_counts : EvictionManager → ℕ × ℕ × ℕ
unfolding count_states
state_counts m = count_states m.eviction_states

unfoldable pub clear : EvictionManager → EvictionManager
clear m = record m { isolates = []; eviction_states = []; total_memory = 0 }
