-- ===== src/Metrics/Tenant.antt =====
-- `TenantMetrics` of src/metrics/tenant.rs.
pub mod Counts
pub mod Latency
use nano_rs.Common.{
  ℕ, ◌+◌, ◌%◌, ◌^◌, Bool, true, false, List, [], ◌∷◌, Text, ltb, leb, ◌==◌, if◌then◌else◌,
}
use nano_rs.Eviction.Defs.{MemoryPressureLevel, normal, warning, critical, emergency}
use nano_rs.Metrics.Counters.{Counter, inc, inc_by}
use nano_rs.Metrics.Counters
use nano_rs.Metrics.Gauges.{Gauge}
use nano_rs.Metrics.Gauges
use nano_rs.Metrics.Histograms.{Floats, Histogram, observe}
use nano_rs.Metrics.Histograms

pub data RequestResult : Type 0 where
  success error timeout : RequestResult

-- The discriminants of the levels, by which they are compared.
abbrev pub discriminant : MemoryPressureLevel → ℕ
discriminant normal = 0
discriminant warning = 1
discriminant critical = 2
discriminant emergency = 3

abbrev pub PressureEvents : Type 0
PressureEvents = List (MemoryPressureLevel × Counter)

abbrev pub pressure_counters : PressureEvents
pressure_counters =
    (warning, Counters.new) ∷ (critical, Counters.new) ∷ (emergency, Counters.new) ∷ []

-- The counter of a level, if it has one, counts up.
unfoldable pub count_level : MemoryPressureLevel → PressureEvents → PressureEvents
unfolding inc_by
count_level level [] = []
count_level level ((l, c) ∷ events) =
    let rest = count_level level events in
    if discriminant l == discriminant level then (l, inc c) ∷ events else (l, c) ∷ rest

module _ (f : Floats) where
  -- In milliseconds.
  abbrev pub request_duration_buckets : List f.F64
  request_duration_buckets =
      f.of_u64 1
      ∷ f.of_u64 5
      ∷ f.of_u64 10
      ∷ f.of_u64 25
      ∷ f.of_u64 50
      ∷ f.of_u64 100
      ∷ f.of_u64 250
      ∷ f.of_u64 500
      ∷ f.of_u64 1000
      ∷ f.infinity
      ∷ []

  abbrev pub thousandth : ℕ → f.F64
  thousandth n = f.div (f.of_u64 n) (f.of_u64 1000)

  -- In seconds.
  abbrev pub cpu_time_buckets : List f.F64
  cpu_time_buckets =
      thousandth 1
      ∷ thousandth 5
      ∷ thousandth 10
      ∷ thousandth 25
      ∷ thousandth 50
      ∷ thousandth 100
      ∷ thousandth 250
      ∷ thousandth 500
      ∷ f.of_u64 1
      ∷ f.infinity
      ∷ []

  abbrev pub memory_buckets : List f.F64
  memory_buckets =
      f.of_u64 1024
      ∷ f.of_u64 10240
      ∷ f.of_u64 102400
      ∷ f.of_u64 1048576
      ∷ f.of_u64 10485760
      ∷ f.of_u64 52428800
      ∷ f.of_u64 104857600
      ∷ f.infinity
      ∷ []

  pub record TenantMetrics : Type 0 where
    pub hostname : Text
    pub requests_total : Counter
    pub requests_success : Counter
    pub requests_error : Counter
    pub requests_timeout : Counter
    pub cpu_seconds_total : Counter
    pub context_resets_total : Counter
    pub pressure_events : PressureEvents
    pub memory_used_bytes : Gauge
    pub memory_external_bytes : Gauge
    pub requests_active : Gauge
    pub isolates_active : Gauge
    pub memory_peak_bytes : ℕ
    pub request_duration_seconds : Histogram f
    pub cpu_time_per_request_seconds : Histogram f
    pub memory_per_request_bytes : Histogram f

  unfoldable pub new : Text → TenantMetrics
  unfolding Histograms.new
  new hostname = record {
    hostname = hostname;
    requests_total = Counters.new;
    requests_success = Counters.new;
    requests_error = Counters.new;
    requests_timeout = Counters.new;
    cpu_seconds_total = Counters.new;
    context_resets_total = Counters.new;
    pressure_events = pressure_counters;
    memory_used_bytes = Gauges.new;
    memory_external_bytes = Gauges.new;
    requests_active = Gauges.new;
    isolates_active = Gauges.new;
    memory_peak_bytes = 0;
    request_duration_seconds = Histograms.new f request_duration_buckets;
    cpu_time_per_request_seconds = Histograms.new f cpu_time_buckets;
    memory_per_request_bytes = Histograms.new f memory_buckets;
  }

  abbrev pub cpu_seconds : ℕ → f.F64
  cpu_seconds cpu_time_us = f.div (f.of_u64 cpu_time_us) (f.of_u64 1000000)

  -- The counter of a result.
  unfoldable pub count_result : RequestResult → TenantMetrics → TenantMetrics
  unfolding inc_by
  count_result success m = record m { requests_success = inc m.requests_success }
  count_result error m = record m { requests_error = inc m.requests_error }
  count_result timeout m = record m { requests_timeout = inc m.requests_timeout }

  -- The peak, which no other thread changes meanwhile.
  unfoldable pub track_peak : ℕ → TenantMetrics → TenantMetrics
  track_peak bytes m =
      if ltb m.memory_peak_bytes bytes then record m { memory_peak_bytes = bytes } else m

  unfoldable pub record_request : RequestResult → ℕ → ℕ → ℕ → TenantMetrics → TenantMetrics
  unfolding inc_by observe count_result track_peak
  record_request result cpu_time_us memory_bytes duration_ms m =
      let counted = count_result result (record m { requests_total = inc m.requests_total }) in
      track_peak memory_bytes (record counted {
        cpu_seconds_total = inc_by (f.to_u64 (cpu_seconds cpu_time_us)) m.cpu_seconds_total;
        request_duration_seconds = observe f (thousandth duration_ms) m.request_duration_seconds;
        cpu_time_per_request_seconds =
            observe f (cpu_seconds cpu_time_us) m.cpu_time_per_request_seconds;
        memory_per_request_bytes = observe f (f.of_u64 memory_bytes) m.memory_per_request_bytes;
      })

  unfoldable pub update_memory : ℕ → ℕ → TenantMetrics → TenantMetrics
  unfolding track_peak
  update_memory heap_bytes external_bytes m =
      track_peak ((heap_bytes + external_bytes) % 2 ^ 64) (record m {
        memory_used_bytes = Gauges.set heap_bytes m.memory_used_bytes;
        memory_external_bytes = Gauges.set external_bytes m.memory_external_bytes;
      })

  abbrev pub record_context_reset : TenantMetrics → TenantMetrics
  record_context_reset m = record m { context_resets_total = inc m.context_resets_total }

  unfoldable pub record_pressure_event : MemoryPressureLevel → TenantMetrics → TenantMetrics
  unfolding count_level
  record_pressure_event level m = record m { pressure_events = count_level level m.pressure_events }

  abbrev pub inc_active_requests : TenantMetrics → TenantMetrics
  inc_active_requests m = record m { requests_active = Gauges.inc m.requests_active }

  abbrev pub dec_active_requests : TenantMetrics → TenantMetrics
  dec_active_requests m = record m { requests_active = Gauges.dec m.requests_active }

  -- The loop over the counts with their bounds; the sum of the counts so far comes first.
  unfoldable pub bound_at : ℕ → ℕ → List Counter → List f.F64 → f.F64
  bound_at cumulative target [] bounds = f.infinity
  bound_at cumulative target (c ∷ counts) bounds =
      elim (leb target ((cumulative + c.value) % 2 ^ 64)) [
        | true ↦ first_bound bounds
        | false ↦ bound_at ((cumulative + c.value) % 2 ^ 64) target counts (rest_of bounds)
      ]
    where
      first_bound : List f.F64 → f.F64
      first_bound [] = f.infinity
      first_bound (b ∷ bs) = b

      rest_of : List f.F64 → List f.F64
      rest_of [] = []
      rest_of (b ∷ bs) = bs

  unfoldable pub request_duration_p99 : TenantMetrics → f.F64
  unfolding bound_at
  request_duration_p99 m =
      let count = m.request_duration_seconds.count.value in
      let part = f.div (f.of_u64 99) (f.of_u64 100) in
      if count == 0
      then f.of_u64 0
      else bound_at 0 (f.to_u64 (f.mul (f.of_u64 count) part))
          m.request_duration_seconds.bucket_counts request_duration_buckets
