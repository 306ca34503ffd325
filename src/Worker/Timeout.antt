-- ===== src/Worker/Timeout.antt =====
-- The limits of time of a request: `CpuTracker` of src/worker/cpu_tracker.rs and `ExecutionTimer` of
-- src/worker/timeout.rs. What the clocks show is an argument; the timers of the async runtime are an
-- interface.
pub mod Config
pub mod Check
pub mod Race
use nano_rs.Common.{
  ℕ, suc, ◌+◌, ◌-◌, ◌*◌, ◌/◌, ◌%◌, ◌^◌, ◌≤◌, ◌≡◌, Bool, true, false, not, Option, none, some, List,
  [], ◌∷◌, Text, bytes, ltb, if◌then◌else◌,
}
use nano_rs.Config.App.{AppLimits}

pub data CpuTimeError : Type 0 where
  limit_exceeded : (used_us limit_us : ℕ) → CpuTimeError
  tracking_failed : (message : Text) → CpuTimeError

pub record CpuTimeSnapshot : Type 0 where
  pub cpu_micros : ℕ
  pub wall_micros : ℕ

-- What the clocks show: the time since the epoch, if it is after it, and the CPU time of the thread,
-- if the platform tells it, both in microseconds.
pub record Reading : Type 0 where
  pub wall : Option ℕ
  pub thread_cpu : Option ℕ

-- `saturating_sub`.
abbrev pub elapsed_cpu_us : CpuTimeSnapshot → CpuTimeSnapshot → ℕ
elapsed_cpu_us start now = now.cpu_micros - start.cpu_micros

pub record CpuTracker : Type 0 where
  pub limit_us : ℕ
  pub enabled : Bool
  pub exceeded : Bool

abbrev pub new_cpu_tracker : ℕ → CpuTracker
new_cpu_tracker limit_ms = record { limit_us = limit_ms * 1000; enabled = true; exceeded = false }

abbrev pub disabled : CpuTracker
disabled = record { limit_us = 2 ^ 64 - 1; enabled = false; exceeded = false }

abbrev pub reset : CpuTracker → CpuTracker
reset t = record t { exceeded = false }

abbrev taken : ℕ → Option ℕ → CpuTimeSnapshot
taken wall none = record { cpu_micros = wall; wall_micros = wall }
taken wall (some cpu) = record { cpu_micros = cpu; wall_micros = wall }

unfoldable pub snapshot : CpuTracker → Reading → Option CpuTimeSnapshot
snapshot t r =
    if not t.enabled
    then none
    else elim r.wall [ none ↦ none | some wall ↦ some (taken wall r.thread_cpu) ]

pub data Checked : Type 0 where
  within : CpuTimeSnapshot → Checked
  over : CpuTimeError → Checked

-- `unwrap_or_default`.
abbrev wall_or_zero : Option ℕ → ℕ
wall_or_zero none = 0
wall_or_zero (some w) = w

abbrev pub no_snapshot : Text
no_snapshot = bytes "Failed to capture CPU time snapshot"

unfoldable pub check_cpu : CpuTracker → CpuTimeSnapshot → Reading → Checked × CpuTracker
unfolding snapshot
check_cpu t start r =
    if not t.enabled then (within (taken (wall_or_zero r.wall) none), t) else elim (snapshot t r) [
      | none ↦ (over (tracking_failed no_snapshot), t)
      | some now ↦
          if ltb t.limit_us (elapsed_cpu_us start now)
          then (
            over (limit_exceeded (elapsed_cpu_us start now) t.limit_us),
            record t { exceeded = true },
          )
          else (within now, t)
    ]

pub record TimeoutConfig : Type 0 where
  pub cpu_time_limit_ms : ℕ
  pub wall_clock_limit_ms : ℕ
  pub termination_grace_us : ℕ

abbrev pub default_config : TimeoutConfig
default_config = record {
  cpu_time_limit_ms = 50;
  wall_clock_limit_ms = 30000;
  termination_grace_us = 100;
}

pub data ConfigProblem : Type 0 where
  cpu_short cpu_long wall_below_cpu wall_long : ConfigProblem

unfoldable pub validate : TimeoutConfig → Option ConfigProblem
validate c =
    if ltb c.cpu_time_limit_ms 1
    then some cpu_short
    else if ltb 1000 c.cpu_time_limit_ms
    then some cpu_long
    else if ltb c.wall_clock_limit_ms c.cpu_time_limit_ms
    then some wall_below_cpu
    else if ltb 300000 c.wall_clock_limit_ms
    then some wall_long
    else none

-- `AppLimits::to_timeout_config` of src/config/app.rs, with its product of 32 bits.
unfoldable pub to_timeout_config : AppLimits → TimeoutConfig
to_timeout_config limits = record {
  cpu_time_limit_ms = if limits.cpu_time_enabled then limits.cpu_time_ms else 1000;
  wall_clock_limit_ms = limits.timeout_secs * 1000 % 2 ^ 32;
  termination_grace_us = 100;
}

pub record ExecutionTimer : Type 0 where
  pub config : TimeoutConfig
  pub cpu_tracker : CpuTracker
  pub active : Bool

abbrev timer_for : TimeoutConfig → ExecutionTimer
timer_for c = record {
  config = c;
  cpu_tracker = new_cpu_tracker c.cpu_time_limit_ms;
  active = false;
}

unfoldable pub with_config : TimeoutConfig → ExecutionTimer
unfolding validate
with_config config = elim (validate config) [
  | none ↦ timer_for config
  | some problem ↦ timer_for default_config
]

pub data TimeoutError : Type 0 where
  cpu_time_exceeded : (used_ms limit_ms : ℕ) → TimeoutError
  wall_clock_exceeded : (limit_ms : ℕ) → TimeoutError
  execution_terminated config_error : TimeoutError

-- How a run ends; `still_running` if it has not.
pub data Outcome (T : Type 0) : Type 0 where
  finished : (value : T) → Outcome T
  timed_out : TimeoutError → Outcome T
  still_running : Outcome T

module _ {T : Type 0} where
  -- The verdict on a value by the check behind it, which ignores errors of the tracking.
  abbrev judged : T → Checked → Outcome T
  judged value (within now) = finished value
  judged value (over (limit_exceeded used limit)) =
      timed_out (cpu_time_exceeded (used / 1000) (limit / 1000))
  judged value (over (tracking_failed message)) = finished value

  -- The value is that of the closure; the clocks are read before it and behind it.
  unfoldable pub execute_and_check :
      ExecutionTimer → Reading → T → Reading → Outcome T × ExecutionTimer
  unfolding snapshot check_cpu
  execute_and_check t before value after = elim (snapshot t.cpu_tracker before) [
    | none ↦ (timed_out config_error, t)
    | some start ↦
        let (checked, tracker) = check_cpu t.cpu_tracker start after in
        (judged value checked, record t { cpu_tracker = tracker; active = false })
  ]

-- Whether a sleep with a deadline is over at a moment: a later one is not over before an earlier.
pub record Timers : Type 0 where
  pub is_over : (deadline now : ℕ) → Bool
  pub in_order : (d d' now : ℕ) → d ≤ d' → is_over d' now ≡ true → is_over d now ≡ true

pub data Branch : Type 0 where
  wall_branch signal_branch poll_branch no_branch : Branch

-- A poll of the `select!` of a round that began at a moment, in microseconds; biased, it takes the
-- first branch that is ready. Both sleeps of the round are made when it begins.
unfoldable pub select : Timers → ℕ → ℕ → ℕ → Branch
select timers wall began now =
    if timers.is_over wall now
    then wall_branch
    else if timers.is_over (began + 100) now
    then signal_branch
    else if timers.is_over (began + 5000) now
    then poll_branch
    else no_branch

-- What comes with a poll of the loop: when its round began, the moment, whether the signal is set,
-- what the future gives if it is polled, and the clocks.
pub record Moment (T : Type 0) : Type 0 where
  pub began : ℕ
  pub now : ℕ
  pub signaled : Bool
  pub polled : Option T
  pub reading : Reading

module _ {T : Type 0} (timers : Timers) (start : CpuTimeSnapshot) (start_time wall : ℕ) where
  -- The check at the end of a round, once the grace period is over.
  unfoldable pub periodic : ExecutionTimer → Moment T → Option TimeoutError
  unfolding check_cpu
  periodic t m =
      if ltb t.config.termination_grace_us (m.now - start_time)
      then elim (check_cpu t.cpu_tracker start m.reading).0 [
        | within now ↦ none
        | over error ↦ elim error [
          | limit_exceeded used limit ↦ some (cpu_time_exceeded (used / 1000) (limit / 1000))
          | tracking_failed message ↦ none
        ]
      ]
      else none

  -- The loop of `run_with_timeout`, over the moments at which its task is polled.
  unfoldable pub race : ExecutionTimer → List (Moment T) → Outcome T
  unfolding periodic select check_cpu
  race t [] = still_running
  race t (m ∷ ms) =
      let rest : Outcome T = elim (periodic t m) [
        | some error ↦ timed_out error
        | none ↦ race t ms
      ] in
      let waiting = race t ms in
      elim (select timers wall m.began m.now) [
        | wall_branch ↦ timed_out (wall_clock_exceeded t.config.wall_clock_limit_ms)
        | signal_branch ↦ if m.signaled then timed_out execution_terminated else rest
        | poll_branch ↦ elim m.polled [
          | some value ↦ judged value (check_cpu t.cpu_tracker start m.reading).0
          | none ↦ rest
        ]
        | no_branch ↦ waiting
      ]
