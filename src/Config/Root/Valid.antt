-- ===== src/Config/Root/Valid.antt =====
-- The configurations that the validation of src/config/mod.rs accepts.
use nano_rs.Common.{
  ℕ, ◌+◌, ◌≤◌, ◌≡◌, refl, ◌≢◌, ◌↔◌, Option, List, [], ◌∷◌, map, Text, length, All, arith,
  to_lowercase,
}
use nano_rs.Config.Hostname.Grammar.{IsHostname}
use nano_rs.Config.Checks.{
  ConfigError, Files, valid, verdict, entrypoint_not_found, entrypoint_not_file, memory_range,
  timeout_range, workers_range,
}
use nano_rs.Config.Checks.Clean.{
  both, is_empty_iff, NoDotDot, contains_dotdot_iff, check_hostname_iff, check_range_iff, IsFound,
  check_source_iff, IsVariable, check_env_vars_iff, IsConfigured, check_backend_iff,
  check_count_iff, under_app_iff, NoRepeat, check_duplicates_iff, Unseen-any,
}
use nano_rs.Config.Root.{
  AppLimits, AppConfig, NanoConfig, ServerConfigSection, check_entrypoint, check_limits, check_app,
  check_apps, check_server, check_config, validate_config, validate_nano_config,
}

pub verdict_iff : (es : List ConfigError) → (verdict es ≡ valid) ↔ (es ≡ [])
verdict_iff [] = (λ e. refl, λ e. refl)
verdict_iff (x ∷ es) = (λ e. cc, λ e. cc)

pub record IsLimits (l : AppLimits) : Type 0 where
  pub memory : (16 ≤ l.memory_mb) × (l.memory_mb ≤ 256)
  pub timeout : (1 ≤ l.timeout_secs) × (l.timeout_secs ≤ 30)
  pub workers : (1 ≤ l.workers) × (l.workers ≤ 64)

module _ (files : Files) (base_path : Option Text) where
  -- What an app must be.
  pub record IsApp (app : AppConfig) : Type 0 where
    pub hostname : IsHostname app.hostname
    pub entrypoint : app.entrypoint ≢ []
    pub confined : NoDotDot app.entrypoint
    pub found : IsFound files base_path app.entrypoint
    pub limits : IsLimits app.limits
    pub env_vars : All IsVariable app.env_vars
    pub backend : IsConfigured app.vfs_backend app.vfs_disk app.vfs_s3

  -- What a configuration must be.
  pub record IsNano (config : NanoConfig) : Type 0 where
    pub count : (1 ≤ length config.apps) × (length config.apps ≤ 1000)
    pub apart : NoRepeat (map to_lowercase (map (λ (app : AppConfig). app.hostname) config.apps))
    pub apps : All IsApp config.apps
    pub port : config.server.port ≢ 0
    pub host : config.server.host ≢ []

  check_limits_iff : (l : AppLimits) → (check_limits l ≡ []) ↔ IsLimits l
  unfolding check_limits
  check_limits_iff l =
      let all = both (check_range_iff memory_range 16 256 l.memory_mb) (
        both (check_range_iff timeout_range 1 30 l.timeout_secs)
          (check_range_iff workers_range 1 64 l.workers)) in
      (
        λ e. let (m, (t, w)) = all.0 e in record { memory = m; timeout = t; workers = w },
        λ v. all.1 (v.memory, (v.timeout, v.workers)),
      )

  check_entrypoint_iff :
      (e : Text)
      → (check_entrypoint files base_path e ≡ [])
        ↔ ((e ≢ []) × NoDotDot e × IsFound files base_path e)
  unfolding check_entrypoint
  check_entrypoint_iff e = ground (
    arith,
    is_empty_iff e,
    contains_dotdot_iff e,
    check_source_iff files base_path e entrypoint_not_found entrypoint_not_file,
  )

  check_app_iff : (app : AppConfig) → (check_app files base_path app ≡ []) ↔ IsApp app
  unfolding check_app
  check_app_iff app =
      let all = both (check_hostname_iff app.hostname) (
        both (check_entrypoint_iff app.entrypoint) (
          both (check_limits_iff app.limits) (
            both (check_env_vars_iff app.env_vars)
              (check_backend_iff app.vfs_backend app.vfs_disk app.vfs_s3)))) in
      (
        λ e.
            let (h, ((some_path, flat, found), (l, (v, b)))) = all.0 e in
            record {
              hostname = h;
              entrypoint = some_path;
              confined = flat;
              found = found;
              limits = l;
              env_vars = v;
              backend = b;
            },
        λ v. all.1 (
          v.hostname,
          ((v.entrypoint, v.confined, v.found), (v.limits, (v.env_vars, v.backend))),
        ),
      )

  check_apps_iff :
      (i : ℕ) (apps : List AppConfig) → (check_apps files base_path i apps ≡ []) ↔ All IsApp apps
  unfolding check_apps
  check_apps_iff i [] = (λ _. tt, λ _. refl)
  check_apps_iff i (app ∷ apps) =
      both
        (
          λ e. (check_app_iff app).0 ((under_app_iff i app.hostname _).0 e),
          λ v. (under_app_iff i app.hostname _).1 ((check_app_iff app).1 v),
        )
        (check_apps_iff (i + 1) apps)

  check_server_iff :
      (s : ServerConfigSection) → (check_server s ≡ []) ↔ ((s.port ≢ 0) × (s.host ≢ []))
  check_server_iff s = ground (arith, is_empty_iff s.host)

  check_config_iff :
      (config : NanoConfig) → (check_config files base_path config ≡ []) ↔ IsNano config
  unfolding check_config
  check_config_iff config =
      let all = both (check_count_iff (length config.apps)) (
        both (check_duplicates_iff [] (map (λ (app : AppConfig). app.hostname) config.apps))
          (both (check_apps_iff 0 config.apps) (check_server_iff config.server))) in
      (
        λ e.
            let (count, (apart, (apps, (port, host)))) = all.0 e in
            record { count = count; apart = apart.1; apps = apps; port = port; host = host },
        λ v. all.1 (v.count, ((Unseen-any _, v.apart), (v.apps, (v.port, v.host)))),
      )

  -- The validation of an app accepts it exactly if its hostname is one, its entrypoint is there,
  -- without two dots in a row, its limits are within 16 to 256 MB, 1 to 30 s and 1 to 64 workers,
  -- and its variables and backend are well formed.
  pub validate_config_iff :
      (app : AppConfig) → (validate_config app files base_path ≡ valid) ↔ IsApp app
  unfolding validate_config
  validate_config_iff app = (
    λ e. (check_app_iff app).0 ((verdict_iff _).0 e),
    λ v. (verdict_iff _).1 ((check_app_iff app).1 v),
  )

  -- The validation accepts a configuration exactly if it has 1 to 1000 apps, whose hostnames
  -- differ without regard to case, each of which the validation of an app accepts, a port that is
  -- not 0 and a host.
  pub validate_nano_config_iff :
      (config : NanoConfig) → (validate_nano_config config files base_path ≡ valid) ↔ IsNano config
  unfolding validate_nano_config
  validate_nano_config_iff config = (
    λ e. (check_config_iff config).0 ((verdict_iff _).0 e),
    λ v. (verdict_iff _).1 ((check_config_iff config).1 v),
  )
