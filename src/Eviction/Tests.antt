-- ===== src/Eviction/Tests.antt =====
-- The theorems on the eviction manager at concrete managers, and runs of it.
use nano_rs.Common.{
  ℕ, ◌+◌, ◌*◌, ◌%◌, ◌^◌, ◌≡◌, refl, true, false, some, List, [], ◌∷◌, Text, bytes, get, str_eq,
  arith,
}
use nano_rs.Eviction.Defs.{
  emergency, requires_eviction, eviction_ids, EvictionManager, default_config, active, draining,
  IsolateMetadata,
}
use nano_rs.Eviction.Sort.{sort_by}
use nano_rs.Eviction.Victims.{Entry, ids_of, select_victims, le_by, is_candidate}
use nano_rs.Eviction.Victims.Best.{IsBest}
use nano_rs.Eviction.Manager.{
  evaluate_pressure, cooling, is_evicted, is_draining, can_accept_requests,
}
use nano_rs.Eviction.Manager.Steps.{
  Op, registers, uses, drains, activates, completes, kills, unregisters, run, IsPaired,
}
use nano_rs.Eviction.Manager.Forward.{run-can_accept_requests}
use nano_rs.Eviction.Manager.Drain.{complete_all, complete_all-evicted}
use nano_rs.Eviction.Manager.Pressure.{asked, evaluate_pressure-IsBest}

abbrev busy : Text
busy = bytes "busy"

abbrev quiet : Text
quiet = bytes "quiet"

abbrev worn : Text
worn = bytes "worn"

abbrev second : ℕ
second = 1000000000

abbrev meta : Text → ℕ → ℕ → ℕ → IsolateMetadata
meta hostname last_used use_count active_requests = record {
  hostname = hostname;
  worker_id = 1;
  last_used = last_used;
  use_count = use_count;
  memory_footprint = 100;
  is_stateless = true;
  active_requests = active_requests;
  created_at = 0;
}

abbrev three : EvictionManager
three = record {
  config = default_config;
  isolates = (busy, meta busy 3 9 2) ∷ (quiet, meta quiet 7 1 0) ∷ (worn, meta worn 5 4 0) ∷ [];
  eviction_states = (busy, draining 2) ∷ (quiet, active) ∷ (worn, active) ∷ [];
  total_memory = 300;
  evictions_total = 6;
  last_eviction = some (2 * second);
}

abbrev no_hash : Text → ℕ
no_hash _ = 0

abbrev calls : List Op
calls =
    registers busy (meta busy 0 0 0)
    ∷ activates busy
    ∷ uses 4 busy 70
    ∷ drains 5 busy
    ∷ completes busy
    ∷ unregisters quiet
    ∷ kills 9 busy
    ∷ []

three-IsPaired : IsPaired three
unfolding get str_eq
three-IsPaired = record {
  isolates = (refl, (refl, (refl, tt)));
  states = (refl, (refl, (refl, tt)));
  same = λ k. ground arith;
}

-- The least recently used isolate that is idle and active.
select_victims_lru : select_victims no_hash 0 (9 * second) three 1 true ≡ worn ∷ []
unfolding select_victims sort_by le_by is_candidate get str_eq
select_victims_lru = refl

evaluate_pressure_emergency :
    eviction_ids (evaluate_pressure no_hash 0 (9 * second) three emergency)
    ≡ some (worn ∷ quiet ∷ [])
unfolding evaluate_pressure eviction_ids select_victims sort_by le_by is_candidate get str_eq
evaluate_pressure_emergency = refl

evaluate_pressure-IsBest_example :
    (requires_eviction emergency ≡ true)
    × (cooling (9 * second) three ≡ false)
    × (chosen : List Entry) × (rest : List Entry) × (worn ∷ quiet ∷ [] ≡ ids_of chosen)
    × IsBest no_hash 0 (9 * second) three (asked three emergency) false chosen rest
evaluate_pressure-IsBest_example =
    evaluate_pressure-IsBest no_hash 0 (9 * second) three emergency (worn ∷ quiet ∷ [])
      evaluate_pressure_emergency

complete_all-evicted_example :
    (is_evicted busy (complete_all 2 busy three) ≡ true)
    × ((complete_all 2 busy three).evictions_total ≡ (6 + 1) % (2 ^ 64))
unfolding is_draining get str_eq
complete_all-evicted_example = complete_all-evicted 1 busy three (meta busy 3 9 2) refl refl refl

run-can_accept_requests_example :
    can_accept_requests busy (run three (activates busy ∷ registers quiet (meta quiet 0 0 0) ∷ []))
    ≡ false
unfolding is_draining is_evicted get str_eq
run-can_accept_requests_example =
    run-can_accept_requests busy three (activates busy ∷ registers quiet (meta quiet 0 0 0) ∷ [])
      three-IsPaired refl refl
