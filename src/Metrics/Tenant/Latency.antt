-- ===== src/Metrics/Tenant/Latency.antt =====
-- What the metrics of a tenant show of the times of its requests.
use nano_rs.Common.{
  ℕ, ◌+◌, ◌%◌, ◌^◌, ◌≤◌, ◌<◌, ◌≡◌, ◌≢◌, ◌==◌, map, refl, true, false, List, [], ◌∷◌, Text, length,
  All, leb, keep, if◌then◌else◌, arith,
}
use nano_rs.Eviction.Sort.{sort_by}
use nano_rs.Metrics.Counters.{Counter, inc, inc_by}
use nano_rs.Metrics.Counters
use nano_rs.Metrics.Histograms.{Floats, Histogram, observe, count_in}
use nano_rs.Metrics.Histograms
use nano_rs.Metrics.Tenant.{
  success, error, timeout, TenantMetrics, new, request_duration_buckets, cpu_seconds, thousandth,
  count_result, track_peak, record_request, update_memory, record_pressure_event, bound_at,
  request_duration_p99,
}
use nano_rs.Metrics.Tenant.Counts.{
  Event, request, memory, context_reset, pressure, apply, run, is_request, run-counter_new,
}

-- A request that took at most a second, of which it computed for less than one.
abbrev pub IsShort : Event → Type 0
IsShort (request r cpu_time_us memory_bytes duration_ms) =
    (duration_ms ≤ 1000) × (cpu_time_us < 1000000)
IsShort _ = Unit

module _ (f : Floats) where
  -- What the floats do here: the bounds are in order, a quotient of at most a second is at most one,
  -- one below a second is cut off to zero, and no part of a number is greater than it.
  pub record IsFloat : Type 0 where
    pub in_order : sort_by f.le (request_duration_buckets f) ≡ request_duration_buckets f
    pub within_one : (ms : ℕ) → ms ≤ 1000 → f.le (thousandth f ms) (f.of_u64 1) ≡ true
    pub cut_off : (us : ℕ) → us < 1000000 → f.to_u64 (cpu_seconds f us) ≡ 0
    pub part :
        (n : ℕ)
        → n < 2 ^ 64
        → f.to_u64 (f.mul (f.of_u64 n) (f.div (f.of_u64 99) (f.of_u64 100))) ≤ n

  run-cpu_seconds_total :
      (es : List Event) (m : TenantMetrics f)
      → IsFloat
      → All IsShort es
      → m.cpu_seconds_total.value ≡ 0
      → (run f es m).cpu_seconds_total.value ≡ 0
  unfolding run apply record_request update_memory record_pressure_event track_peak count_result
      inc_by
  run-cpu_seconds_total [] m v a e = e
  run-cpu_seconds_total (request success c b d ∷ es) m v a e =
      run-cpu_seconds_total es (apply f (request success c b d) m) v a.1
        (ground (arith, v.cut_off c a.0.1, e))
  run-cpu_seconds_total (request error c b d ∷ es) m v a e =
      run-cpu_seconds_total es (apply f (request error c b d) m) v a.1
        (ground (arith, v.cut_off c a.0.1, e))
  run-cpu_seconds_total (request timeout c b d ∷ es) m v a e =
      run-cpu_seconds_total es (apply f (request timeout c b d) m) v a.1
        (ground (arith, v.cut_off c a.0.1, e))
  run-cpu_seconds_total (memory heap external ∷ es) m v a e =
      run-cpu_seconds_total es (apply f (memory heap external) m) v a.1 (ground (arith, e))
  run-cpu_seconds_total (context_reset ∷ es) m v a e =
      run-cpu_seconds_total es (apply f context_reset m) v a.1 e
  run-cpu_seconds_total (pressure level ∷ es) m v a e =
      run-cpu_seconds_total es (apply f (pressure level) m) v a.1 e

  -- The histogram of durations after an event.
  durations : Event → Histogram f → Histogram f
  unfolding observe
  durations (request r c b d) h = observe f (thousandth f d) h
  durations _ h = h

  durations-apply :
      (e : Event) (m : TenantMetrics f)
      → (apply f e m).request_duration_seconds ≡ durations e m.request_duration_seconds
  unfolding apply durations record_request update_memory record_pressure_event track_peak
      count_result
  durations-apply (request success c b d) m = ground arith
  durations-apply (request error c b d) m = ground arith
  durations-apply (request timeout c b d) m = ground arith
  durations-apply (memory heap external) m = ground arith
  durations-apply context_reset m = refl
  durations-apply (pressure level) m = refl

  -- All observations are in the first bucket, whose bound is one.
  record IsFirst (h : Histogram f) : Type 0 where
    bounds : List f.F64
    counts : List Counter
    bounds_of : h.buckets ≡ f.of_u64 1 ∷ bounds
    counts_of : h.bucket_counts ≡ h.count ∷ counts

  durations-IsFirst :
      (e : Event) (h : Histogram f) → IsFloat → IsShort e → IsFirst h → IsFirst (durations e h)
  unfolding durations observe count_in
  durations-IsFirst (request r c b d) h v short s = record {
    bounds = s.bounds;
    counts = s.counts;
    bounds_of = s.bounds_of;
    counts_of = rw (s.bounds_of, s.counts_of, v.within_one d short.0) refl;
  }
  durations-IsFirst (memory heap external) h v short s = s
  durations-IsFirst context_reset h v short s = s
  durations-IsFirst (pressure level) h v short s = s

  run-IsFirst :
      (es : List Event) (m : TenantMetrics f)
      → IsFloat
      → All IsShort es
      → IsFirst m.request_duration_seconds
      → IsFirst (run f es m).request_duration_seconds
  unfolding run
  run-IsFirst [] m v a s = s
  run-IsFirst (e ∷ es) m v a s =
      run-IsFirst es (apply f e m) v a.1
        (rw (durations-apply e m) (durations-IsFirst e m.request_duration_seconds v a.0 s))

  step_observed :
      (e : Event) (m : TenantMetrics f)
      → (apply f e m).request_duration_seconds.count.value ≡ (
          if is_request e
          then (m.request_duration_seconds.count.value + 1) % 2 ^ 64
          else m.request_duration_seconds.count.value)
  unfolding durations observe inc_by
  step_observed (request r c b d) m = rw (durations-apply (request r c b d) m) refl
  step_observed (memory heap external) m = rw (durations-apply (memory heap external) m) refl
  step_observed context_reset m = rw (durations-apply context_reset m) refl
  step_observed (pressure level) m = rw (durations-apply (pressure level) m) refl

  bound_at_first :
      (target : ℕ) (c : Counter) (counts : List Counter) (bound : f.F64) (bounds : List f.F64)
      → target ≤ c.value
      → c.value < 2 ^ 64
      → bound_at f 0 target (c ∷ counts) (bound ∷ bounds) ≡ bound
  unfolding bound_at
  bound_at_first target c counts bound bounds reached fits =
      let met : leb target ((0 + c.value) % 2 ^ 64) ≡ true = ground (arith, reached, fits) in
      rw (bound_at, met) refl

  request_duration_p99_first :
      (m : TenantMetrics f)
      → IsFloat
      → IsFirst m.request_duration_seconds
      → m.request_duration_seconds.count.value ≢ 0
      → m.request_duration_seconds.count.value < 2 ^ 64
      → request_duration_p99 f m ≡ f.of_u64 1
  unfolding request_duration_p99 bound_at
  request_duration_p99_first m v s some_requests fits =
      let h = m.request_duration_seconds in
      let filled : (h.count.value == 0) ≡ false = ground (arith, some_requests) in
      rw (filled, s.counts_of)
        (bound_at_first _ h.count s.counts _ _ (v.part h.count.value fits) fits)

  above_one : List f.F64 → List f.F64
  above_one [] = []
  above_one (b ∷ bs) = bs

  new-IsFirst : (hostname : Text) → IsFloat → IsFirst (new f hostname).request_duration_seconds
  unfolding new Histograms.new above_one
  new-IsFirst hostname v = record {
    bounds = above_one (request_duration_buckets f);
    counts = map (λ b. Counters.new) (above_one (request_duration_buckets f));
    bounds_of = v.in_order;
    counts_of = rw v.in_order refl;
  }

  -- Of a tenant whose requests all take at most a second and compute for less than one, of which
  -- there is at least one and there are fewer than 2^64: the percentile 99 of the durations is one,
  -- and the total of the CPU time is 0.
  pub run_short :
      (hostname : Text) (es : List Event)
      → IsFloat
      → All IsShort es
      → length (keep is_request es) ≢ 0
      → length (keep is_request es) < 2 ^ 64
      → (request_duration_p99 f (run f es (new f hostname)) ≡ f.of_u64 1)
        × ((run f es (new f hostname)).cpu_seconds_total.value ≡ 0)
  unfolding new Histograms.new
  run_short hostname es v a some_requests fits =
      let m = new f hostname in
      let count =
        run-counter_new f (λ n. n.request_duration_seconds.count) is_request step_observed es m
          refl in
      let start = new-IsFirst hostname v in
      (
        request_duration_p99_first (run f es m) v (run-IsFirst es m v a start)
            (λ none. some_requests (omega (arith, count, none, fits))) (omega (arith, count)),
        run-cpu_seconds_total es m v a refl,
      )
