-- ===== src/Worker/Timeout/Check.antt =====
-- `execute_and_check` of src/worker/timeout.rs.
use nano_rs.Common.{ℕ, ◌-◌, ◌/◌, ◌≡◌, true, false, some, arith, ltb, if◌then◌else◌}
use nano_rs.Worker.Timeout.{
  snapshot, check_cpu, ExecutionTimer, finished, timed_out, cpu_time_exceeded, execute_and_check,
}

-- Of a timer that tracks, on a platform that tells the CPU time of a thread: the value of the closure
-- is returned exactly if the CPU time that it took is within the limit, else an error with both in
-- milliseconds; the excess is noted, and the timer is not active behind it.
pub execute_and_check_exact :
    {T : Type 0} (t : ExecutionTimer) (value : T) (wall wall' cpu cpu' : ℕ)
    → t.cpu_tracker.enabled ≡ true
    → let limit = t.cpu_tracker.limit_us in
      let (outcome, t') =
        execute_and_check t
          (record { wall = some wall; thread_cpu = some cpu })
          value
          (record { wall = some wall'; thread_cpu = some cpu' }) in
      (outcome ≡ (
        if ltb limit (cpu' - cpu)
        then timed_out (cpu_time_exceeded ((cpu' - cpu) / 1000) (limit / 1000))
        else finished value))
      × (t'.cpu_tracker.exceeded
          ≡ (if ltb limit (cpu' - cpu) then true else t.cpu_tracker.exceeded))
      × (t'.active ≡ false)
unfolding execute_and_check snapshot check_cpu
execute_and_check_exact t value wall wall' cpu cpu' on = ground (arith, on)
