-- ===== src/Config/App/Valid.antt =====
-- The configurations that the validation of src/config/app.rs accepts.
use nano_rs.Common.{
  ℕ, ◌+◌, ◌≤◌, ◌≡◌, refl, ◌≢◌, ◌↔◌, ◌⊎◌, inl, inr, some, none, Option, List, [], ◌∷◌, map, Text,
  length, All, if◌then◌else◌, arith, to_lowercase,
}
use nano_rs.Config.Hostname.{contains_dotdot}
use nano_rs.Config.Hostname.Grammar.{IsHostname}
use nano_rs.Config.Checks.{
  ConfigError, entrypoint_dotdot, sliver_dotdot, check_source, Files, valid, add_if,
  entrypoint_not_found, entrypoint_not_file, memory_range, timeout_range, workers_range, cpu_range,
  sliver_not_found, sliver_not_file, no_source,
}
use nano_rs.Config.Checks.Clean.{
  both, is_empty_iff, NoDotDot, contains_dotdot_iff, check_hostname_iff, check_range_iff, IsFound,
  check_source_iff, IsVariable, check_env_vars_iff, IsConfigured, check_backend_iff,
  check_count_iff, under_app_iff, NoRepeat, check_duplicates_iff, Unseen-any,
}
use nano_rs.Config.Root.Valid.{verdict_iff}
use nano_rs.Config.App.{
  AppLimits, AppConfig, NanoConfig, ServerConfigSection, lacks_source, check_entrypoint,
  check_sliver, check_limits, check_app, check_apps, check_server, check_config, validate_config,
  validate_nano_config,
}

pub record IsLimits (l : AppLimits) : Type 0 where
  pub memory : (16 ≤ l.memory_mb) × (l.memory_mb ≤ 256)
  pub timeout : (1 ≤ l.timeout_secs) × (l.timeout_secs ≤ 30)
  pub workers : (1 ≤ l.workers) × (l.workers ≤ 64)
  pub cpu : (1 ≤ l.cpu_time_ms) × (l.cpu_time_ms ≤ 1000)

-- A sliver or a script that an app names.
abbrev pub IsGiven : Text → Option Text → Type 0
IsGiven entrypoint none = entrypoint ≢ []
IsGiven entrypoint (some sliver) = Unit

abbrev pub OrNone : (Text → Type 0) → Option Text → Type 0
OrNone P none = Unit
OrNone P (some t) = P t

module _ (files : Files) (base_path : Option Text) where
  -- A path that is there, without two dots in a row.
  pub record IsSource (path : Text) : Type 0 where
    pub filled : path ≢ []
    pub confined : NoDotDot path
    pub found : IsFound files base_path path

  -- What an app must be.
  pub record IsApp (app : AppConfig) : Type 0 where
    pub hostname : IsHostname app.hostname
    pub given : IsGiven app.entrypoint app.sliver
    pub entrypoint : (app.entrypoint ≡ []) ⊎ IsSource app.entrypoint
    pub sliver : OrNone IsSource app.sliver
    pub limits : IsLimits app.limits
    pub env_vars : All IsVariable app.env_vars
    pub backend : IsConfigured app.vfs_backend app.vfs_disk app.vfs_s3

  -- What a configuration must be.
  pub record IsNano (config : NanoConfig) : Type 0 where
    pub count : (1 ≤ length config.apps) × (length config.apps ≤ 1000)
    pub apart : NoRepeat (map to_lowercase (map (λ (app : AppConfig). app.hostname) config.apps))
    pub apps : All IsApp config.apps
    pub port : config.server.port ≢ 0
    pub host : config.server.host ≢ []

  check_limits_iff : (l : AppLimits) → (check_limits l ≡ []) ↔ IsLimits l
  unfolding check_limits
  check_limits_iff l =
      let all = both (check_range_iff memory_range 16 256 l.memory_mb) (
        both (check_range_iff timeout_range 1 30 l.timeout_secs) (
          both (check_range_iff workers_range 1 64 l.workers)
            (check_range_iff cpu_range 1 1000 l.cpu_time_ms))) in
      (
        λ e.
            let (m, (t, (w, c))) = all.0 e in
            record { memory = m; timeout = t; workers = w; cpu = c },
        λ v. all.1 (v.memory, (v.timeout, (v.workers, v.cpu))),
      )

  lacks_source_iff :
      (entrypoint : Text) (sliver : Option Text)
      → (add_if (lacks_source entrypoint sliver) no_source ≡ []) ↔ IsGiven entrypoint sliver
  lacks_source_iff entrypoint none = ground (arith, is_empty_iff entrypoint)
  lacks_source_iff entrypoint (some sliver) = (λ _. tt, λ _. refl)

  IsSource_iff :
      (path : Text) (not_found : Text → Text → ConfigError) (not_file dotdot : Text → ConfigError)
      → ((if contains_dotdot path
            then dotdot path ∷ []
            else check_source files base_path path not_found not_file)
          ≡ [])
        ↔ (NoDotDot path × IsFound files base_path path)
  IsSource_iff path not_found not_file dotdot =
      ground
        (arith, contains_dotdot_iff path, check_source_iff files base_path path not_found not_file)

  check_entrypoint_iff :
      (e : Text) → (check_entrypoint files base_path e ≡ []) ↔ ((e ≡ []) ⊎ IsSource e)
  unfolding check_entrypoint
  check_entrypoint_iff [] = (λ _. inl refl, λ _. refl)
  check_entrypoint_iff (c ∷ e) =
      let rest = IsSource_iff (c ∷ e) entrypoint_not_found entrypoint_not_file entrypoint_dotdot in
      (
        λ x.
            let (confined, found) = rest.0 x in
            inr (record { filled = λ n. cc; confined = confined; found = found }),
        λ x. elim x [ inl n ↦ cc | inr v ↦ rest.1 (v.confined, v.found) ],
      )

  check_sliver_iff : (s : Option Text) → (check_sliver files base_path s ≡ []) ↔ OrNone IsSource s
  unfolding check_sliver
  check_sliver_iff none = (λ _. tt, λ _. refl)
  check_sliver_iff (some []) = (λ e. cc, λ v. absurd (v.filled refl))
  check_sliver_iff (some (c ∷ s)) =
      let rest = IsSource_iff (c ∷ s) sliver_not_found sliver_not_file sliver_dotdot in
      (
        λ x.
            let (confined, found) = rest.0 x in
            record { filled = λ n. cc; confined = confined; found = found },
        λ v. rest.1 (v.confined, v.found),
      )

  check_app_iff : (app : AppConfig) → (check_app files base_path app ≡ []) ↔ IsApp app
  unfolding check_app
  check_app_iff app =
      let all = both (check_hostname_iff app.hostname) (
        both (lacks_source_iff app.entrypoint app.sliver) (
          both (check_entrypoint_iff app.entrypoint) (
            both (check_sliver_iff app.sliver) (
              both (check_limits_iff app.limits) (
                both (check_env_vars_iff app.env_vars)
                  (check_backend_iff app.vfs_backend app.vfs_disk app.vfs_s3)))))) in
      (
        λ e.
            let (h, (g, (p, (s, (l, (v, b)))))) = all.0 e in
            record {
              hostname = h;
              given = g;
              entrypoint = p;
              sliver = s;
              limits = l;
              env_vars = v;
              backend = b;
            },
        λ v. all.1 (
          v.hostname,
          (v.given, (v.entrypoint, (v.sliver, (v.limits, (v.env_vars, v.backend))))),
        ),
      )

  check_apps_iff :
      (i : ℕ) (apps : List AppConfig) → (check_apps files base_path i apps ≡ []) ↔ All IsApp apps
  unfolding check_apps
  check_apps_iff i [] = (λ _. tt, λ _. refl)
  check_apps_iff i (app ∷ apps) =
      both
        (
          λ e. (check_app_iff app).0 ((under_app_iff i app.hostname _).0 e),
          λ v. (under_app_iff i app.hostname _).1 ((check_app_iff app).1 v),
        )
        (check_apps_iff (i + 1) apps)

  check_server_iff :
      (s : ServerConfigSection) → (check_server s ≡ []) ↔ ((s.port ≢ 0) × (s.host ≢ []))
  check_server_iff s = ground (arith, is_empty_iff s.host)

  check_config_iff :
      (config : NanoConfig) → (check_config files base_path config ≡ []) ↔ IsNano config
  unfolding check_config
  check_config_iff config =
      let all = both (check_count_iff (length config.apps)) (
        both (check_duplicates_iff [] (map (λ (app : AppConfig). app.hostname) config.apps))
          (both (check_apps_iff 0 config.apps) (check_server_iff config.server))) in
      (
        λ e.
            let (count, (apart, (apps, (port, host)))) = all.0 e in
            record { count = count; apart = apart.1; apps = apps; port = port; host = host },
        λ v. all.1 (v.count, ((Unseen-any _, v.apart), (v.apps, (v.port, v.host)))),
      )

  -- The validation of an app accepts it exactly if its hostname is one, it names an entrypoint or
  -- a sliver, which are there without two dots in a row, its limits are within 16 to 256 MB, 1 to
  -- 30 s, 1 to 64 workers and 1 to 1000 ms, and its variables and backend are well formed.
  pub validate_config_iff :
      (app : AppConfig) → (validate_config app files base_path ≡ valid) ↔ IsApp app
  unfolding validate_config
  validate_config_iff app = (
    λ e. (check_app_iff app).0 ((verdict_iff _).0 e),
    λ v. (verdict_iff _).1 ((check_app_iff app).1 v),
  )

  -- The validation accepts a configuration exactly if it has 1 to 1000 apps, whose hostnames
  -- differ without regard to case, each of which the validation of an app accepts, a port that is
  -- not 0 and a host.
  pub validate_nano_config_iff :
      (config : NanoConfig) → (validate_nano_config config files base_path ≡ valid) ↔ IsNano config
  unfolding validate_nano_config
  validate_nano_config_iff config = (
    λ e. (check_config_iff config).0 ((verdict_iff _).0 e),
    λ v. (verdict_iff _).1 ((check_config_iff config).1 v),
  )
