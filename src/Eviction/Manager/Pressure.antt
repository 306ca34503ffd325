-- ===== src/Eviction/Manager/Pressure.antt =====
-- What the manager does under memory pressure.
use nano_rs.Common.{
  ℕ, ◌-◌, ◌*◌, ◌/◌, ◌%◌, ◌<◌, ◌≡◌, refl, ◌∙◌, true, false, not, inl, inr, none, some, List, Text,
  get, Bool-cases, arith,
}
use nano_rs.Eviction.Defs.{
  MemoryPressureLevel, normal, warning, critical, emergency, requires_eviction,
  requires_hard_eviction, eviction_ids, EvictionManager, IsolateEvictionState, word,
}
use nano_rs.Eviction.Victims.{Entry, ids_of, select_victims}
use nano_rs.Eviction.Victims.Best.{IsBest, select_victims-IsBest}
use nano_rs.Eviction.Manager.{evaluate_pressure, cooling, hard_evict, finish}

-- How many isolates the manager asks for: twice as many in an emergency, as a 64-bit word.
abbrev pub asked : EvictionManager → MemoryPressureLevel → ℕ
asked m emergency = m.config.target_eviction_count * 2 % word
asked m _ = m.config.target_eviction_count

-- The manager names isolates to evict only at a level that requires an eviction and outside the
-- cooldown after the last one. They are then the best of the eligible isolates by the policy, as
-- many as asked for or else all of them; unless it is an emergency, they are stateless where the
-- configuration asks for it.
pub evaluate_pressure-IsBest :
    (hash : Text → ℕ) (seed now : ℕ) (m : EvictionManager) (level : MemoryPressureLevel)
    (ids : List Text)
    → eviction_ids (evaluate_pressure hash seed now m level) ≡ some ids
    → (requires_eviction level ≡ true)
      × (cooling now m ≡ false)
      × (chosen : List Entry) × (rest : List Entry) × (ids ≡ ids_of chosen)
      × IsBest hash seed now m (asked m level) (not (requires_hard_eviction level)) chosen rest
unfolding evaluate_pressure eviction_ids
evaluate_pressure-IsBest hash seed now m normal ids h = ground (arith, h)
evaluate_pressure-IsBest hash seed now m warning ids h = ground (arith, h)
evaluate_pressure-IsBest hash seed now m critical ids h = elim (Bool-cases (cooling now m)) [
  | inl c ↦ ground (arith, h, c)
  | inr c ↦
      let count = m.config.target_eviction_count in
      let (chosen, rest, same, best) = select_victims-IsBest hash seed now m count true in
      let named : ids ≡ select_victims hash seed now m count true = ground (arith, h, c) in
      (refl, c, chosen, rest, named ∙ same, best)
]
evaluate_pressure-IsBest hash seed now m emergency ids h = elim (Bool-cases (cooling now m)) [
  | inl c ↦ ground (arith, h, c)
  | inr c ↦
      let count = m.config.target_eviction_count * 2 % word in
      let (chosen, rest, same, best) = select_victims-IsBest hash seed now m count false in
      let named : ids ≡ select_victims hash seed now m count false = ground (arith, h, c) in
      (refl, c, chosen, rest, named ∙ same, best)
]

-- After a hard eviction of an isolate that the manager knows, no isolate is named for eviction before the cooldown, in whole
-- seconds, is over, at any level.
pub hard_evict-cooldown :
    (hash : Text → ℕ) (seed now later : ℕ) (id : Text) (m : EvictionManager)
    (s : IsolateEvictionState) (level : MemoryPressureLevel)
    → get id m.eviction_states ≡ some s
    → (later - now) / 1000000000 < m.config.cooldown_secs
    → eviction_ids (evaluate_pressure hash seed later (hard_evict now id m) level) ≡ none
unfolding evaluate_pressure eviction_ids hard_evict finish
hard_evict-cooldown hash seed now later id m s level found soon = ground (arith, found, soon)
