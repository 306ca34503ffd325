-- ===== src/Metrics/Tenant/Counts.antt =====
-- What the counters and the peak of a tenant show after a series of records.
use nano_rs.Common.{
  ℕ, ◌+◌, ◌%◌, ◌^◌, ◌≡◌, refl, Bool, true, false, List, [], ◌∷◌, Text, length, keep, Bool-cases,
  inl, inr, ltb, if◌then◌else◌, arith,
}
use nano_rs.Eviction.Defs.{MemoryPressureLevel}
use nano_rs.Metrics.Counters.{Counter, inc_by}
use nano_rs.Metrics.Histograms.{Floats}
use nano_rs.Metrics.Tenant.{
  RequestResult, success, error, timeout, TenantMetrics, new, count_result, track_peak,
  record_request, update_memory, record_context_reset, record_pressure_event,
}

-- What the collector records of a tenant.
pub data Event : Type 0 where
  request : (result : RequestResult) → (cpu_time_us memory_bytes duration_ms : ℕ) → Event
  memory : (heap_bytes external_bytes : ℕ) → Event
  context_reset : Event
  pressure : (level : MemoryPressureLevel) → Event

abbrev pub is_request : Event → Bool
is_request (request r c b d) = true
is_request _ = false

abbrev pub has_result : RequestResult → Event → Bool
has_result success (request success c b d) = true
has_result error (request error c b d) = true
has_result timeout (request timeout c b d) = true
has_result _ _ = false

abbrev pub is_reset : Event → Bool
is_reset context_reset = true
is_reset _ = false

-- The bytes that an event tells of.
abbrev pub memory_of : Event → ℕ
memory_of (request r c b d) = b
memory_of (memory heap external) = (heap + external) % 2 ^ 64
memory_of _ = 0

abbrev greater : ℕ → ℕ → ℕ
greater a b = if ltb a b then b else a

unfoldable pub highest : List Event → ℕ
highest [] = 0
highest (e ∷ es) = greater (memory_of e) (highest es)

module _ (f : Floats) where
  unfoldable pub apply : Event → TenantMetrics f → TenantMetrics f
  unfolding record_request update_memory record_pressure_event inc_by
  apply (request r c b d) m = record_request f r c b d m
  apply (memory heap external) m = update_memory f heap external m
  apply context_reset m = record_context_reset f m
  apply (pressure level) m = record_pressure_event f level m

  unfoldable pub run : List Event → TenantMetrics f → TenantMetrics f
  run [] m = m
  run (e ∷ es) m = run es (apply e m)

  -- A counter that some of the events count up by one.
  module _ (read : TenantMetrics f → Counter) (hits : Event → Bool)
      (step : (e : Event) (m : TenantMetrics f)
        → (read (apply e m)).value
          ≡ (if hits e then ((read m).value + 1) % 2 ^ 64 else (read m).value)) where
    run-counter :
        (es : List Event) (m : TenantMetrics f) (k : ℕ)
        → (read m).value ≡ k % 2 ^ 64
        → (read (run es m)).value ≡ (k + length (keep hits es)) % 2 ^ 64
    unfolding run
    run-counter [] m k e = omega (arith, e)
    run-counter (x ∷ es) m k e = elim (Bool-cases (hits x)) [
      | inl hit ↦
          let stepped : (read (apply x m)).value ≡ (k + 1) % 2 ^ 64 =
            ground (arith, step x m, hit, e) in
          rw hit (omega (arith, run-counter es (apply x m) (k + 1) stepped))
      | inr miss ↦
          let stepped : (read (apply x m)).value ≡ k % 2 ^ 64 = ground (arith, step x m, miss, e) in
          rw miss (run-counter es (apply x m) k stepped)
    ]

    pub run-counter_new :
        (es : List Event) (m : TenantMetrics f)
        → (read m).value ≡ 0
        → (read (run es m)).value ≡ length (keep hits es) % 2 ^ 64
    run-counter_new es m e = omega (arith, run-counter es m 0 (omega (arith, e)))

  -- The counters of a tenant of which the events are all that was recorded.
  pub record Counts (es : List Event) (m : TenantMetrics f) : Type 0 where
    pub total : m.requests_total.value ≡ length (keep is_request es) % 2 ^ 64
    pub of_success : m.requests_success.value ≡ length (keep (has_result success) es) % 2 ^ 64
    pub of_error : m.requests_error.value ≡ length (keep (has_result error) es) % 2 ^ 64
    pub of_timeout : m.requests_timeout.value ≡ length (keep (has_result timeout) es) % 2 ^ 64
    pub resets : m.context_resets_total.value ≡ length (keep is_reset es) % 2 ^ 64
    pub parts :
        m.requests_total.value
        ≡ (m.requests_success.value + (m.requests_error.value + m.requests_timeout.value)) % 2 ^ 64
    pub peak : m.memory_peak_bytes ≡ highest es

  run-peak :
      (es : List Event) (m : TenantMetrics f)
      → (run es m).memory_peak_bytes ≡ greater m.memory_peak_bytes (highest es)
  unfolding run highest apply record_request update_memory record_pressure_event track_peak
      count_result
  run-peak [] m = ground arith
  run-peak (request success c b d ∷ es) m =
      ground (arith, run-peak es (apply (request success c b d) m))
  run-peak (request error c b d ∷ es) m =
      ground (arith, run-peak es (apply (request error c b d) m))
  run-peak (request timeout c b d ∷ es) m =
      ground (arith, run-peak es (apply (request timeout c b d) m))
  run-peak (memory heap external ∷ es) m =
      ground (arith, run-peak es (apply (memory heap external) m))
  run-peak (context_reset ∷ es) m = ground (arith, run-peak es (apply context_reset m))
  run-peak (pressure level ∷ es) m = ground (arith, run-peak es (apply (pressure level) m))

  parts_length :
      (es : List Event)
      → length (keep is_request es)
        ≡ length (keep (has_result success) es)
          + (length (keep (has_result error) es) + length (keep (has_result timeout) es))
  parts_length [] = refl
  parts_length (request success c b d ∷ es) = omega (arith, parts_length es)
  parts_length (request error c b d ∷ es) = omega (arith, parts_length es)
  parts_length (request timeout c b d ∷ es) = omega (arith, parts_length es)
  parts_length (memory heap external ∷ es) = parts_length es
  parts_length (context_reset ∷ es) = parts_length es
  parts_length (pressure level ∷ es) = parts_length es

  step_total :
      (e : Event) (m : TenantMetrics f)
      → (apply e m).requests_total.value
        ≡ (if is_request e then (m.requests_total.value + 1) % 2 ^ 64 else m.requests_total.value)
  unfolding apply record_request update_memory record_pressure_event track_peak count_result inc_by
  step_total (request success c b d) m = ground arith
  step_total (request error c b d) m = ground arith
  step_total (request timeout c b d) m = ground arith
  step_total (memory heap external) m = ground arith
  step_total context_reset m = refl
  step_total (pressure level) m = refl

  step_resets :
      (e : Event) (m : TenantMetrics f)
      → (apply e m).context_resets_total.value ≡ (
          if is_reset e
          then (m.context_resets_total.value + 1) % 2 ^ 64
          else m.context_resets_total.value)
  unfolding apply record_request update_memory record_pressure_event track_peak count_result inc_by
  step_resets (request success c b d) m = ground arith
  step_resets (request error c b d) m = ground arith
  step_resets (request timeout c b d) m = ground arith
  step_resets (memory heap external) m = ground arith
  step_resets context_reset m = refl
  step_resets (pressure level) m = refl

  -- The counter of a result.
  abbrev counter_of : RequestResult → TenantMetrics f → Counter
  counter_of success m = m.requests_success
  counter_of error m = m.requests_error
  counter_of timeout m = m.requests_timeout

  step_result :
      (r : RequestResult) (e : Event) (m : TenantMetrics f)
      → (counter_of r (apply e m)).value
        ≡ (if has_result r e then ((counter_of r m).value + 1) % 2 ^ 64 else (counter_of r m).value)
  unfolding apply record_request update_memory record_pressure_event track_peak count_result inc_by
  step_result success (request success c b d) m = ground arith
  step_result success (request error c b d) m = ground arith
  step_result success (request timeout c b d) m = ground arith
  step_result success (memory heap external) m = ground arith
  step_result success context_reset m = refl
  step_result success (pressure level) m = refl
  step_result error (request success c b d) m = ground arith
  step_result error (request error c b d) m = ground arith
  step_result error (request timeout c b d) m = ground arith
  step_result error (memory heap external) m = ground arith
  step_result error context_reset m = refl
  step_result error (pressure level) m = refl
  step_result timeout (request success c b d) m = ground arith
  step_result timeout (request error c b d) m = ground arith
  step_result timeout (request timeout c b d) m = ground arith
  step_result timeout (memory heap external) m = ground arith
  step_result timeout context_reset m = refl
  step_result timeout (pressure level) m = refl

  -- After any series of records on new metrics, each counter shows how many of them were of its
  -- kind, modulo 2^64, the requests are those of the three results together, and the peak is the
  -- greatest number of bytes of all records.
  pub run-Counts : (hostname : Text) (es : List Event) → Counts es (run es (new f hostname))
  unfolding new
  run-Counts hostname es =
      let m = new f hostname in
      let total = run-counter_new (λ n. n.requests_total) is_request step_total es m refl in
      let s =
        run-counter_new (counter_of success) (has_result success) (step_result success) es m refl in
      let e = run-counter_new (counter_of error) (has_result error) (step_result error) es m refl in
      let t =
        run-counter_new (counter_of timeout) (has_result timeout) (step_result timeout) es m refl in
      record {
        total = total;
        of_success = s;
        of_error = e;
        of_timeout = t;
        resets = run-counter_new (λ n. n.context_resets_total) is_reset step_resets es m refl;
        parts = omega (arith, total, s, e, t, parts_length es);
        peak = ground (arith, run-peak es m);
      }
