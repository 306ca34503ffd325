-- ===== src/Eviction/Defs.antt =====
-- The data of the eviction manager. Instants are counted in nanoseconds.
use nano_rs.Common.{
  ℕ, ◌+◌, ◌-◌, ◌%◌, ◌^◌, Bool, true, false, Option, none, some, List, Text, bytes, length, ltb,
  ◌==◌, if◌then◌else◌,
}

pub data MemoryPressureLevel : Type 0 where
  normal warning critical emergency : MemoryPressureLevel

abbrev pub requires_eviction : MemoryPressureLevel → Bool
requires_eviction critical = true
requires_eviction emergency = true
requires_eviction _ = false

abbrev pub requires_hard_eviction : MemoryPressureLevel → Bool
requires_hard_eviction emergency = true
requires_hard_eviction _ = false

pub data EvictionPolicy : Type 0 where
  lru lfu random largest_first : EvictionPolicy

pub description : EvictionPolicy → Text
description lru = bytes "Least Recently Used"
description lfu = bytes "Least Frequently Used"
description random = bytes "Random Selection"
description largest_first = bytes "Largest Memory First"

pub record IsolateMetadata : Type 0 where
  pub hostname : Text
  pub worker_id : ℕ
  pub last_used : ℕ
  pub use_count : ℕ
  pub memory_footprint : ℕ
  pub is_stateless : Bool
  pub active_requests : ℕ
  pub created_at : ℕ

unfoldable pub new_metadata : ℕ → Text → ℕ → IsolateMetadata
new_metadata now hostname worker_id = record {
  hostname = hostname;
  worker_id = worker_id;
  last_used = now;
  use_count = 0;
  memory_footprint = 0;
  is_stateless = true;
  active_requests = 0;
  created_at = now;
}

abbrev pub word : ℕ
word = 2 ^ 64

-- `record_usage` of the metadata, then `update_memory`.
unfoldable pub use_memory : ℕ → ℕ → IsolateMetadata → IsolateMetadata
use_memory now memory_bytes m = record m {
  last_used = now;
  use_count = (m.use_count + 1) % word;
  memory_footprint = memory_bytes;
}

unfoldable pub mark_stateful : IsolateMetadata → IsolateMetadata
mark_stateful m = record m { is_stateless = false }

unfoldable pub mark_stateless : IsolateMetadata → IsolateMetadata
mark_stateless m = record m { is_stateless = true }

unfoldable pub increment_active : IsolateMetadata → IsolateMetadata
increment_active m = record m { active_requests = (m.active_requests + 1) % word }

unfoldable pub decrement_active : IsolateMetadata → IsolateMetadata
decrement_active m =
    if ltb 0 m.active_requests then record m { active_requests = m.active_requests - 1 } else m

abbrev pub is_idle : IsolateMetadata → Bool
is_idle m = m.active_requests == 0

-- `elapsed` stops at 0.
abbrev pub idle_duration : ℕ → IsolateMetadata → ℕ
idle_duration now m = now - m.last_used

abbrev pub age : ℕ → IsolateMetadata → ℕ
age now m = now - m.created_at

pub data EvictionAction : Type 0 where
  allow throttle : EvictionAction
  soft_evict hard_evict_of : List Text → EvictionAction

unfoldable pub is_eviction : EvictionAction → Bool
is_eviction (soft_evict _) = true
is_eviction (hard_evict_of _) = true
is_eviction _ = false

unfoldable pub is_hard : EvictionAction → Bool
is_hard (hard_evict_of _) = true
is_hard _ = false

unfoldable pub eviction_ids : EvictionAction → Option (List Text)
eviction_ids (soft_evict ids) = some ids
eviction_ids (hard_evict_of ids) = some ids
eviction_ids _ = none

unfoldable pub eviction_count : EvictionAction → ℕ
eviction_count (soft_evict ids) = length ids
eviction_count (hard_evict_of ids) = length ids
eviction_count _ = 0

pub data IsolateEvictionState : Type 0 where
  active evicted : IsolateEvictionState
  draining : ℕ → IsolateEvictionState

abbrev pub is_active : IsolateEvictionState → Bool
is_active active = true
is_active _ = false

abbrev pub is_draining_state : IsolateEvictionState → Bool
is_draining_state (draining _) = true
is_draining_state _ = false

abbrev pub is_evicted_state : IsolateEvictionState → Bool
is_evicted_state evicted = true
is_evicted_state _ = false

pub record EvictionConfig : Type 0 where
  pub policy : EvictionPolicy
  pub target_eviction_count : ℕ
  pub cooldown_secs : ℕ
  pub prefer_stateless : Bool
  pub min_idle_secs : ℕ

abbrev pub default_config : EvictionConfig
default_config = record {
  policy = lru;
  target_eviction_count = 1;
  cooldown_secs = 5;
  prefer_stateless = true;
  min_idle_secs = 0;
}

pub record EvictionManager : Type 0 where
  pub config : EvictionConfig
  pub isolates : List (Text × IsolateMetadata)
  pub eviction_states : List (Text × IsolateEvictionState)
  pub total_memory : ℕ
  pub evictions_total : ℕ
  pub last_eviction : Option ℕ
