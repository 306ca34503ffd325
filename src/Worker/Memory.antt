-- ===== src/Worker/Memory.antt =====
-- Memory limits: src/worker/limits.rs and the `OomMonitor` of src/worker/oom.rs. What V8 tells of its
-- heap is an argument of each call, and the floats of the threshold are an interface.
pub mod Monitor
pub mod Tracker
use nano_rs.Common.{
  ℕ, ◌+◌, ◌-◌, ◌*◌, ◌/◌, ◌%◌, ◌^◌, ◌≤◌, Bool, true, false, ◌&&◌, Option, none, some, Text, ltb,
  ◌==◌, if◌then◌else◌,
}

-- The largest value of 64 bits, where `saturating_add` stops.
abbrev pub saturating_add : ℕ → ℕ → ℕ
saturating_add m n = if ltb (m + n) (2 ^ 64) then m + n else 2 ^ 64 - 1

pub record HeapStatistics : Type 0 where
  pub used_heap_size : ℕ
  pub total_heap_size : ℕ
  pub heap_size_limit : ℕ
  pub external_memory : ℕ
  pub number_of_native_contexts : ℕ
  pub number_of_detached_contexts : ℕ

unfoldable pub total_memory_bytes : HeapStatistics → ℕ
total_memory_bytes stats = saturating_add stats.used_heap_size stats.external_memory

unfoldable pub exceeds_limit : ℕ → HeapStatistics → Bool
exceeds_limit limit_bytes stats = ltb limit_bytes (total_memory_bytes stats)

pub data OomError : Type 0 where
  limit_exceeded : ℕ → ℕ → Text → OomError
  v8_heap_limit_triggered : OomError

pub data OomResult {ℓ} (A : Type ℓ) : Type ℓ where
  within : A → OomResult A
  oom : OomError → OomResult A

-- Thresholds are floats from 0 to 1: `clamp` puts a value there, and `times` is the product with
-- a number of bytes, cut to an integer.
pub record Threshold : Type 1 where
  pub Value : Type 0
  pub one : Value
  pub clamp : Value → Value
  pub times : ℕ → Value → ℕ

module _ (F : Threshold) where
  pub record MemoryLimiter : Type 0 where
    pub limit_bytes : ℕ
    pub current_bytes : ℕ
    pub oom_triggered : Bool
    pub app_hostname : Text
    pub oom_threshold : F.Value

  unfoldable pub new : ℕ → Text → MemoryLimiter
  new limit_mb app_hostname = record {
    limit_bytes = limit_mb * 1024 * 1024;
    current_bytes = 0;
    oom_triggered = false;
    app_hostname = app_hostname;
    oom_threshold = F.one;
  }

  unfoldable pub with_threshold : ℕ → Text → F.Value → MemoryLimiter
  with_threshold limit_mb app_hostname oom_threshold = record {
    limit_bytes = limit_mb * 1024 * 1024;
    current_bytes = 0;
    oom_triggered = false;
    app_hostname = app_hostname;
    oom_threshold = F.clamp oom_threshold;
  }

  unfoldable pub reset : MemoryLimiter → MemoryLimiter
  reset l = record l { oom_triggered = false; current_bytes = 0 }

  unfoldable pub trigger_oom : MemoryLimiter → MemoryLimiter
  trigger_oom l = record l { oom_triggered = true }

  unfoldable pub set_oom_threshold : F.Value → MemoryLimiter → MemoryLimiter
  set_oom_threshold threshold l = record l { oom_threshold = F.clamp threshold }

  abbrev pub effective_oom_limit_bytes : MemoryLimiter → ℕ
  effective_oom_limit_bytes l = F.times l.limit_bytes l.oom_threshold

  exceeded : HeapStatistics → MemoryLimiter → OomResult HeapStatistics × MemoryLimiter
  exceeded stats l = (
    oom (limit_exceeded (total_memory_bytes stats) l.limit_bytes l.app_hostname),
    record l { oom_triggered = true },
  )

  unfoldable pub check_heap :
      HeapStatistics → MemoryLimiter → OomResult HeapStatistics × MemoryLimiter
  unfolding exceeded
  check_heap stats l =
      if exceeds_limit l.limit_bytes stats
      then exceeded stats l
      else (within stats, record l { current_bytes = total_memory_bytes stats })

  unfoldable pub check_oom :
      HeapStatistics → MemoryLimiter → OomResult HeapStatistics × MemoryLimiter
  unfolding exceeded
  check_oom stats l =
      if ltb (effective_oom_limit_bytes l) (total_memory_bytes stats)
      then exceeded stats l
      else (within stats, record l { current_bytes = total_memory_bytes stats })

  pub record OomMonitor : Type 0 where
    pub limiter : MemoryLimiter
    pub monitor_id : Text
    pub check_count : ℕ
    pub oom_count : ℕ

  unfoldable pub new_monitor : MemoryLimiter → Text → OomMonitor
  new_monitor limiter monitor_id = record {
    limiter = limiter;
    monitor_id = monitor_id;
    check_count = 0;
    oom_count = 0;
  }

  unfoldable pub check : HeapStatistics → OomMonitor → OomResult HeapStatistics × OomMonitor
  check stats m =
      let (result, limiter) = check_oom stats m.limiter in
      let m' = record m { limiter = limiter; check_count = (m.check_count + 1) % 2 ^ 64 } in
      elim result [
        | within s ↦ (within s, m')
        | oom e ↦ (oom e, record m' { oom_count = (m.oom_count + 1) % 2 ^ 64 })
      ]

  unfoldable pub reset_monitor : OomMonitor → OomMonitor
  reset_monitor m = record m { limiter = reset m.limiter }

pub record RequestMemoryTracker : Type 0 where
  pub start_stats : Option HeapStatistics
  pub limit_bytes : ℕ
  pub hostname : Text

unfoldable pub new_tracker : ℕ → Text → RequestMemoryTracker
new_tracker limit_mb hostname = record {
  start_stats = none;
  limit_bytes = (if limit_mb == 0 then 16 else limit_mb) * 1024 * 1024;
  hostname = hostname;
}

unfoldable pub start : HeapStatistics → RequestMemoryTracker → RequestMemoryTracker
start stats t = record t { start_stats = some stats }

unfoldable pub current_growth_bytes : HeapStatistics → RequestMemoryTracker → ℕ
current_growth_bytes now t = elim t.start_stats [
  | none ↦ 0
  | some begun ↦
      if ltb begun.used_heap_size now.used_heap_size
      then now.used_heap_size - begun.used_heap_size
      else 0
]

unfoldable pub check_limit : HeapStatistics → RequestMemoryTracker → OomResult ℕ
check_limit now t =
    let growth = current_growth_bytes now t in
    if ltb 0 t.limit_bytes && ltb t.limit_bytes growth
    then oom (limit_exceeded growth t.limit_bytes t.hostname)
    else within growth

unfoldable pub reset_tracker : RequestMemoryTracker → RequestMemoryTracker
reset_tracker t = record t { start_stats = none }
