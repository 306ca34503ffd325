-- ===== src/Eviction/Manager/Steps.antt =====
-- Series of calls of the eviction manager.
use nano_rs.Common.{ℕ, ◌≡◌, List, [], ◌∷◌, Text, has_key, Distinct}
use nano_rs.Eviction.Defs.{IsolateMetadata, EvictionManager}
use nano_rs.Eviction.Manager.{
  register_isolate, unregister_isolate, record_usage, mark_active, get_metadata_mut, mark_complete,
  initiate_soft_eviction, complete_soft_eviction, hard_evict, reactivate_isolate, clear,
}

pub data Op : Type 0 where
  registers reactivates : Text → IsolateMetadata → Op
  unregisters activates completes finishes : Text → Op
  uses : ℕ → Text → ℕ → Op
  drains kills : ℕ → Text → Op
  changes : (IsolateMetadata → IsolateMetadata) → Text → Op
  clears : Op

unfoldable pub step : EvictionManager → Op → EvictionManager
step m (registers id meta) = register_isolate id meta m
step m (reactivates id meta) = reactivate_isolate id meta m
step m (unregisters id) = unregister_isolate id m
step m (activates id) = mark_active id m
step m (completes id) = mark_complete id m
step m (finishes id) = (complete_soft_eviction id m).1
step m (uses now id memory_bytes) = record_usage now id memory_bytes m
step m (drains now id) = (initiate_soft_eviction now id m).1
step m (kills now id) = hard_evict now id m
step m (changes change id) = get_metadata_mut change id m
step m clears = clear m

unfoldable pub run : EvictionManager → List Op → EvictionManager
run m [] = m
run m (op ∷ ops) = run (step m op) ops

-- The two maps hold the same isolates, each once.
pub record IsPaired (m : EvictionManager) : Type 0 where
  pub isolates : Distinct m.isolates
  pub states : Distinct m.eviction_states
  pub same : (k : Text) → has_key k m.isolates ≡ has_key k m.eviction_states
