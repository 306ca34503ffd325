-- ===== src/Metrics/Collector.antt =====
-- `TenantMetricsCollector` and `GlobalMetrics` of src/metrics/tenant.rs.
pub mod Apart
pub mod Top
use nano_rs.Common.{
  ℕ, ◌+◌, Option, none, some, List, [], ◌∷◌, Text, length, map, take, get, put, leb,
}
use nano_rs.Eviction.Defs.{MemoryPressureLevel}
use nano_rs.Eviction.Sort.{sort_by}
use nano_rs.Metrics.Counters.{Counter, inc, inc_by}
use nano_rs.Metrics.Counters
use nano_rs.Metrics.Gauges.{Gauge}
use nano_rs.Metrics.Gauges
use nano_rs.Metrics.Histograms.{Floats}
use nano_rs.Metrics.Tenant.{
  RequestResult, PressureEvents, pressure_counters, count_level, cpu_seconds, TenantMetrics,
}
use nano_rs.Metrics.Tenant

pub record GlobalMetrics : Type 0 where
  pub total_requests : Counter
  pub total_cpu_seconds : Counter
  pub total_memory_bytes : Gauge
  pub active_isolates : Gauge
  pub pressure_events : PressureEvents

unfoldable pub new_global : GlobalMetrics
new_global = record {
  total_requests = Counters.new;
  total_cpu_seconds = Counters.new;
  total_memory_bytes = Gauges.new;
  active_isolates = Gauges.new;
  pressure_events = pressure_counters;
}

module _ (f : Floats) where
  unfoldable pub global_request : f.F64 → GlobalMetrics → GlobalMetrics
  unfolding inc_by
  global_request seconds g = record g {
    total_requests = inc g.total_requests;
    total_cpu_seconds = inc_by (f.to_u64 seconds) g.total_cpu_seconds;
  }

  unfoldable pub global_pressure : MemoryPressureLevel → GlobalMetrics → GlobalMetrics
  unfolding count_level
  global_pressure level g = record g { pressure_events = count_level level g.pressure_events }

  pub record TenantMetricsCollector : Type 0 where
    pub tenants : List (Text × TenantMetrics f)
    pub global : GlobalMetrics

  unfoldable pub new : TenantMetricsCollector
  unfolding new_global
  new = record { tenants = []; global = new_global }

  unfoldable pub get_or_create : Text → TenantMetricsCollector → TenantMetrics f
  unfolding get Tenant.new
  get_or_create hostname c = elim (get hostname c.tenants) [
    | none ↦ Tenant.new f hostname
    | some m ↦ m
  ]

  -- The metrics of a hostname, made if they are missing, change in their place.
  unfoldable pub with_tenant :
      Text → (TenantMetrics f → TenantMetrics f) → TenantMetricsCollector → TenantMetricsCollector
  unfolding get_or_create put
  with_tenant hostname change c = record c {
    tenants = put hostname (change (get_or_create hostname c)) c.tenants;
  }

  unfoldable pub record_request :
      Text → RequestResult → ℕ → ℕ → ℕ → TenantMetricsCollector → TenantMetricsCollector
  unfolding with_tenant Tenant.record_request global_request
  record_request hostname result cpu_time_us memory_bytes duration_ms c =
      let recorded =
        with_tenant hostname (Tenant.record_request f result cpu_time_us memory_bytes duration_ms)
          c in
      record recorded { global = global_request (cpu_seconds f cpu_time_us) c.global }

  unfoldable pub update_memory : Text → ℕ → ℕ → TenantMetricsCollector → TenantMetricsCollector
  unfolding with_tenant Tenant.update_memory
  update_memory hostname heap_bytes external_bytes =
      with_tenant hostname (Tenant.update_memory f heap_bytes external_bytes)

  unfoldable pub record_context_reset : Text → TenantMetricsCollector → TenantMetricsCollector
  unfolding with_tenant
  record_context_reset hostname = with_tenant hostname (Tenant.record_context_reset f)

  unfoldable pub record_pressure_event :
      Text → MemoryPressureLevel → TenantMetricsCollector → TenantMetricsCollector
  unfolding with_tenant Tenant.record_pressure_event global_pressure
  record_pressure_event hostname level c =
      let recorded = with_tenant hostname (Tenant.record_pressure_event f level) c in
      record recorded { global = global_pressure level c.global }

  unfoldable pub get_tenant : Text → TenantMetricsCollector → Option (TenantMetrics f)
  unfolding get
  get_tenant hostname c = get hostname c.tenants

  abbrev pub tenant_count : TenantMetricsCollector → ℕ
  tenant_count c = length c.tenants

  abbrev pub tenant_hostnames : TenantMetricsCollector → List Text
  tenant_hostnames c = map (λ entry. entry.0) c.tenants

  -- The greatest counts first, in the order of the map where they are equal.
  unfoldable pub top_tenants :
      (TenantMetrics f → Counter) → ℕ → TenantMetricsCollector → List (Text × ℕ)
  unfolding sort_by
  top_tenants read n c =
      take n
        (sort_by (λ a b. leb b.1 a.1) (map (λ entry. (entry.0, (read entry.1).value)) c.tenants))

  unfoldable pub top_tenants_by_requests : ℕ → TenantMetricsCollector → List (Text × ℕ)
  unfolding top_tenants
  top_tenants_by_requests = top_tenants (λ m. m.requests_total)

  unfoldable pub top_tenants_by_cpu : ℕ → TenantMetricsCollector → List (Text × ℕ)
  unfolding top_tenants
  top_tenants_by_cpu = top_tenants (λ m. m.cpu_seconds_total)
