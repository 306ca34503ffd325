-- ===== src/Worker/Timeout/Race.antt =====
-- `run_with_timeout` of src/worker/timeout.rs: what its `select!` can choose.
use nano_rs.Common.{ℕ, ◌+◌, ◌≡◌, ◌≢◌, true, List, [], ◌∷◌, ◌++◌, arith}
use nano_rs.Worker.Timeout.{
  CpuTimeSnapshot, ExecutionTimer, finished, still_running, Timers, poll_branch, select, Moment,
  race,
}

-- The short sleep is over whenever the long one is.
select-ne-poll : (timers : Timers) (wall began now : ℕ) → select timers wall began now ≢ poll_branch
unfolding select
select-ne-poll timers wall began now =
    ground (arith, timers.in_order (began + 100) (began + 5000) now (omega arith))

module _ {T : Type 0} (timers : Timers) (start : CpuTimeSnapshot) (start_time wall : ℕ) where
  -- Whatever the clocks show and the future would give: the future is never polled, so that
  -- `run_with_timeout` never returns a value of it.
  pub race-ne-finished :
      (t : ExecutionTimer) (ms : List (Moment T)) (value : T)
      → race timers start start_time wall t ms ≢ finished value
  unfolding race
  race-ne-finished t [] value = λ e. cc
  race-ne-finished t (m ∷ ms) value =
      ground (arith, select-ne-poll timers wall m.began m.now, race-ne-finished t ms value)

  -- The run ends: once the task is polled when the sleep of the wall clock limit is over, there is
  -- an error, if not before.
  pub race-ends :
      (t : ExecutionTimer) (before after : List (Moment T)) (m : Moment T)
      → timers.is_over wall m.now ≡ true
      → race timers start start_time wall t (before ++ (m ∷ after)) ≢ still_running
  unfolding race select
  race-ends t [] after m h = ground (arith, h)
  race-ends t (x ∷ before) after m h = ground (arith, race-ends t before after m h)
