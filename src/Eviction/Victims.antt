-- ===== src/Eviction/Victims.antt =====
-- `select_victims` of src/worker/eviction.rs. The hash that the random policy sorts by is a
-- parameter, as is the order of the hash map, which decides between equal keys.
pub mod Best
use nano_rs.Common.{
  ℕ, ◌+◌, ◌*◌, ◌%◌, Bool, true, not, ◌&&◌, none, some, List, Text, map, get, keep, take, ltb, leb,
}
use nano_rs.Eviction.Defs.{
  EvictionPolicy, lru, lfu, random, largest_first, IsolateMetadata, is_idle, idle_duration,
  is_active, word, EvictionManager,
}
use nano_rs.Eviction.Sort.{sort_by}

abbrev pub Entry : Type 0
Entry = Text × IsolateMetadata

-- The order of each policy: what is evicted first comes first.
unfoldable pub le_by : (Text → ℕ) → ℕ → EvictionPolicy → Entry → Entry → Bool
le_by hash seed lru (_, a) (_, b) = leb a.last_used b.last_used
le_by hash seed lfu (_, a) (_, b) = leb a.use_count b.use_count
le_by hash seed largest_first (_, a) (_, b) = leb b.memory_footprint a.memory_footprint
le_by hash seed random (i, _) (j, _) = leb ((seed + hash i) % word) ((seed + hash j) % word)

unfoldable pub is_candidate : ℕ → Bool → EvictionManager → Entry → Bool
is_candidate now stateless_only m (id, meta) =
    (elim (get id m.eviction_states) [ none ↦ true | some s ↦ is_active s ])
    && is_idle meta
    && not (ltb (idle_duration now meta) (m.config.min_idle_secs * 1000000000))
    && not (stateless_only && m.config.prefer_stateless && not meta.is_stateless)

abbrev pub candidates : ℕ → Bool → EvictionManager → List Entry
candidates now stateless_only m = keep (is_candidate now stateless_only m) m.isolates

abbrev pub ids_of : List Entry → List Text
ids_of = map (λ e. e.0)

unfoldable pub select_victims : (Text → ℕ) → ℕ → ℕ → EvictionManager → ℕ → Bool → List Text
select_victims hash seed now m count stateless_only =
    ids_of
      (take count (sort_by (le_by hash seed m.config.policy) (candidates now stateless_only m)))
