-- ===== src/Worker/Memory/Monitor.antt =====
-- The monitor through a series of checks and resets.
use nano_rs.Common.{
  ℕ, ◌+◌, ◌^◌, ◌≤◌, ◌<◌, ◌≡◌, refl, Bool, true, false, inl, inr, List, [], ◌∷◌, Text, length, ltb,
  if◌then◌else◌, Bool-cases, arith,
}
use nano_rs.Worker.Memory.{
  HeapStatistics, total_memory_bytes, Threshold, MemoryLimiter, reset, effective_oom_limit_bytes,
  check_oom, OomMonitor, new_monitor, check, reset_monitor,
}

pub data Op : Type 0 where
  checks : HeapStatistics → Op
  resets : Op

-- What a series of checks and resets comes to at a limit: how many checks, how many of them above the
-- limit, and whether there was one of these since the last reset.
pub record Tally : Type 0 where
  pub checked : ℕ
  pub above : ℕ
  pub alarm : Bool

abbrev pub count : ℕ → Tally → List Op → Tally
count limit t [] = t
count limit t (resets ∷ ops) = count limit (record t { alarm = false }) ops
count limit t (checks stats ∷ ops) =
    count limit
      (if ltb limit (total_memory_bytes stats)
        then record { checked = t.checked + 1; above = t.above + 1; alarm = true }
        else record t { checked = t.checked + 1 })
      ops

module _ (F : Threshold) where
  unfoldable pub step : OomMonitor F → Op → OomMonitor F
  step m (checks stats) = (check F stats m).1
  step m resets = reset_monitor F m

  unfoldable pub run : OomMonitor F → List Op → OomMonitor F
  run m [] = m
  run m (op ∷ ops) = run (step m op) ops

  -- The monitor shows the tally, and has not left its limit.
  pub record Shows (limit : ℕ) (t : Tally) (m : OomMonitor F) : Type 0 where
    pub checked : m.check_count ≡ t.checked
    pub above : m.oom_count ≡ t.above
    pub alarm : m.limiter.oom_triggered ≡ t.alarm
    pub effective : effective_oom_limit_bytes F m.limiter ≡ limit
    pub current : m.limiter.current_bytes ≤ limit

  check-over :
      (limit : ℕ) (m : OomMonitor F) (t : Tally) (stats : HeapStatistics)
      → Shows limit t m
      → t.checked + 1 < 2 ^ 64
      → t.above ≤ t.checked
      → ltb limit (total_memory_bytes stats) ≡ true
      → Shows limit
          (record { checked = t.checked + 1; above = t.above + 1; alarm = true })
          (step m (checks stats))
  unfolding step check check_oom
  check-over limit m t stats s small le over =
      let over' : ltb (effective_oom_limit_bytes F m.limiter) (total_memory_bytes stats) ≡ true =
        rw s.effective over in
      record {
        checked = ground (arith, over', s.checked, small);
        above = ground (arith, over', s.above, small, le);
        alarm = ground (arith, over');
        effective = ground (arith, over', s.effective);
        current = ground (arith, over', s.current);
      }

  check-under :
      (limit : ℕ) (m : OomMonitor F) (t : Tally) (stats : HeapStatistics)
      → Shows limit t m
      → t.checked + 1 < 2 ^ 64
      → ltb limit (total_memory_bytes stats) ≡ false
      → Shows limit (record t { checked = t.checked + 1 }) (step m (checks stats))
  unfolding step check check_oom
  check-under limit m t stats s small under =
      let under' : ltb (effective_oom_limit_bytes F m.limiter) (total_memory_bytes stats) ≡ false =
        rw s.effective under in
      record {
        checked = ground (arith, under', s.checked, small);
        above = ground (arith, under', s.above);
        alarm = ground (arith, under', s.alarm);
        effective = ground (arith, under', s.effective);
        current = ground (arith, under', under);
      }

  run-Shows :
      (limit : ℕ) (m : OomMonitor F) (t : Tally) (ops : List Op)
      → Shows limit t m
      → t.above ≤ t.checked
      → t.checked + length ops < 2 ^ 64
      → Shows limit (count limit t ops) (run m ops)
  unfolding run
  run-Shows limit m t [] s le h = s
  run-Shows limit m t (resets ∷ ops) s le h =
      run-Shows limit (step m resets) (record t { alarm = false }) ops
        (unfold step in
          unfold reset_monitor in
          unfold reset in
          record {
            checked = s.checked;
            above = s.above;
            alarm = refl;
            effective = s.effective;
            current = omega arith;
          })
        le (omega (arith, h))
  run-Shows limit m t (checks stats ∷ ops) s le h =
      elim (Bool-cases (ltb limit (total_memory_bytes stats))) [
        | inl over ↦ rw over (
            run-Shows limit (step m (checks stats))
              (record { checked = t.checked + 1; above = t.above + 1; alarm = true }) ops
              (check-over limit m t stats s (omega (arith, h)) le over) (omega (arith, le))
              (omega (arith, h)))
        | inr under ↦ rw under (
            run-Shows limit (step m (checks stats)) (record t { checked = t.checked + 1 }) ops
              (check-under limit m t stats s (omega (arith, h)) under) (omega (arith, le))
              (omega (arith, h)))
      ]

abbrev pub nothing : Tally
nothing = record { checked = 0; above = 0; alarm = false }

-- After any series of checks and resets of a new monitor, fewer than 2^64, its counters are the
-- number of checks and of those above the effective limit, it is out of memory exactly if there was
-- one of these since the last reset, and the use that it notes is within the limit.
pub run-new_monitor :
    (F : Threshold) (limiter : MemoryLimiter F) (id : Text) (ops : List Op)
    → limiter.oom_triggered ≡ false
    → limiter.current_bytes ≡ 0
    → length ops < 2 ^ 64
    → let limit = effective_oom_limit_bytes F limiter in
      Shows F limit (count limit nothing ops) (run F (new_monitor F limiter id) ops)
unfolding new_monitor
run-new_monitor F limiter id ops calm empty small =
    run-Shows F (effective_oom_limit_bytes F limiter) (new_monitor F limiter id) nothing ops
      (record {
        checked = refl;
        above = refl;
        alarm = calm;
        effective = refl;
        current = omega (arith, empty);
      })
      (omega arith) (omega (arith, small))
