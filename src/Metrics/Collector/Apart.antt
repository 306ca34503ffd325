-- ===== src/Metrics/Collector/Apart.antt =====
-- What the collector shows of one tenant among the records of all.
use nano_rs.Common.{
  ◌≡◌, refl, ap, ◌∙◌, true, Option, none, some, List, [], ◌∷◌, Text, is_empty, str_eq, str_eq_iff,
  get, put, get-put, if◌then◌else◌, arith, Bool-cases, inl, inr,
}
use nano_rs.Metrics.Histograms.{Floats}
use nano_rs.Metrics.Tenant.{TenantMetrics}
use nano_rs.Metrics.Tenant
use nano_rs.Metrics.Tenant.Counts.{Event, request, memory, context_reset, pressure, apply}
use nano_rs.Metrics.Tenant.Counts
use nano_rs.Metrics.Collector.{
  TenantMetricsCollector, new, get_or_create, with_tenant, record_request, update_memory,
  record_context_reset, record_pressure_event, get_tenant,
}

abbrev pub Events : Type 0
Events = List (Text × Event)

-- The records of one hostname.
abbrev pub own : Text → Events → List Event
own host [] = []
own host ((h, e) ∷ es) = let rest = own host es in if str_eq h host then e ∷ rest else rest

module _ (f : Floats) where
  unfoldable pub record_event : Text → Event → TenantMetricsCollector f → TenantMetricsCollector f
  unfolding record_request update_memory record_context_reset record_pressure_event
  record_event h (request r c b d) = record_request f h r c b d
  record_event h (memory heap external) = update_memory f h heap external
  record_event h context_reset = record_context_reset f h
  record_event h (pressure level) = record_pressure_event f h level

  unfoldable pub run : Events → TenantMetricsCollector f → TenantMetricsCollector f
  unfolding record_event
  run [] c = c
  run ((h, e) ∷ es) c = run es (record_event h e c)

  or_new : Text → Option (TenantMetrics f) → TenantMetrics f
  unfolding Tenant.new
  or_new host none = Tenant.new f host
  or_new host (some m) = m

  -- The metrics that records of a tenant leave.
  after : Text → List Event → Option (TenantMetrics f) → Option (TenantMetrics f)
  unfolding or_new apply
  after host [] before = before
  after host (e ∷ es) before = after host es (some (apply f e (or_new host before)))

  after-some :
      (host : Text) (es : List Event) (m : TenantMetrics f)
      → after host es (some m) ≡ some (Counts.run f es m)
  unfolding after or_new Counts.run
  after-some host [] m = refl
  after-some host (e ∷ es) m = after-some host es (apply f e m)

  after-none :
      (host : Text) (es : List Event)
      → after host es none
        ≡ (if is_empty es then none else some (Counts.run f es (Tenant.new f host)))
  unfolding after or_new Counts.run
  after-none host [] = refl
  after-none host (e ∷ es) = after-some host es (apply f e (Tenant.new f host))

  tenants-record_event :
      (h : Text) (e : Event) (c : TenantMetricsCollector f)
      → (record_event h e c).tenants ≡ put h (apply f e (get_or_create f h c)) c.tenants
  unfolding record_event record_request update_memory record_context_reset record_pressure_event
      with_tenant apply
  tenants-record_event h (request r c b d) m = refl
  tenants-record_event h (memory heap external) m = refl
  tenants-record_event h context_reset m = refl
  tenants-record_event h (pressure level) m = refl

  get_tenant-record_event :
      (host h : Text) (e : Event) (c : TenantMetricsCollector f)
      → get_tenant f host (record_event h e c)
        ≡ (if str_eq h host then some (apply f e (get_or_create f h c)) else get_tenant f host c)
  unfolding get_tenant
  get_tenant-record_event host h e c =
      ap (get host) (tenants-record_event h e c) ∙ get-put h host _ c.tenants

  get_or_create-get_tenant :
      (host h : Text) (c : TenantMetricsCollector f)
      → str_eq h host ≡ true
      → get_or_create f h c ≡ or_new host (get_tenant f host c)
  unfolding get_or_create or_new get_tenant
  get_or_create-get_tenant host h c same = rw ((str_eq_iff h host).0 same) (ground arith)

  get_tenant-run :
      (host : Text) (es : Events) (c : TenantMetricsCollector f)
      → get_tenant f host (run es c) ≡ after host (own host es) (get_tenant f host c)
  unfolding run after
  get_tenant-run host [] c = refl
  get_tenant-run host ((h, e) ∷ es) c = elim (Bool-cases (str_eq h host)) [
    | inl same ↦
        let recorded = get_tenant-record_event host h e c in
        rw same (
          get_tenant-run host es (record_event h e c)
          ∙ ap (after host (own host es))
              (ground (arith, recorded, same, get_or_create-get_tenant host h c same)))
    | inr other ↦ rw other (
        get_tenant-run host es (record_event h e c)
        ∙ ap (after host (own host es)) (ground (arith, get_tenant-record_event host h e c, other)))
  ]

  -- After any series of records of all tenants, a hostname has the metrics that its own records
  -- alone give, and none if there are none of it.
  pub get_tenant-own :
      (host : Text) (es : Events)
      → get_tenant f host (run es (new f)) ≡ (
          if is_empty (own host es)
          then none
          else some (Counts.run f (own host es) (Tenant.new f host)))
  unfolding get_tenant new get
  get_tenant-own host es = get_tenant-run host es (new f) ∙ after-none host (own host es)
