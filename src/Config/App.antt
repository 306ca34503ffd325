-- ===== src/Config/App.antt =====
-- src/config/app.rs: a second configuration, with slivers and limits of WebSockets, and its
-- validation. The server takes its `AppLimits`; the loader takes src/config/mod.rs.
pub mod Valid
pub mod Embed
use nano_rs.Common.{
  ℕ, suc, ◌+◌, ◌*◌, ◌/◌, Bool, true, false, Option, none, some, List, [], ◌∷◌, ◌++◌, map, Text,
  bytes, is_empty, length, ◌==◌, if◌then◌else◌,
}
use nano_rs.Limits.{heap_size_bytes_max, timeout_ms, workers_per_app_max}
use nano_rs.Config.Hostname.{contains_dotdot}
use nano_rs.Config.Checks.{
  ConfigError, no_source, entrypoint_dotdot, entrypoint_not_found, entrypoint_not_file,
  memory_range, timeout_range, workers_range, cpu_range, sliver_empty, sliver_dotdot,
  sliver_not_found, sliver_not_file, port_zero, host_empty, Validation, verdict, add_if, Files,
  check_source, check_range, check_hostname, check_env_vars, VfsBackendType, memory, VfsDiskConfig,
  VfsS3Config, check_backend, check_duplicates, check_count, under_app,
}

pub record AppLimits : Type 0 where
  pub memory_mb : ℕ
  pub timeout_secs : ℕ
  pub workers : ℕ
  pub cpu_time_ms : ℕ
  pub cpu_time_enabled : Bool
  pub max_ws_connections : Option ℕ
  pub ws_idle_timeout_ms : Option ℕ

abbrev pub default_limits : AppLimits
default_limits = record {
  memory_mb = 128;
  timeout_secs = 30;
  workers = 4;
  cpu_time_ms = 50;
  cpu_time_enabled = true;
  max_ws_connections = none;
  ws_idle_timeout_ms = none;
}

abbrev unwrap_or : Option ℕ → ℕ → ℕ
unwrap_or none d = d
unwrap_or (some n) d = n

unfoldable pub effective_max_ws_connections : AppLimits → ℕ
effective_max_ws_connections limits = unwrap_or limits.max_ws_connections (limits.workers / 2)

unfoldable pub effective_ws_idle_timeout_ms : AppLimits → ℕ
effective_ws_idle_timeout_ms limits = unwrap_or limits.ws_idle_timeout_ms 30000

pub record AppConfig : Type 0 where
  pub hostname : Text
  pub entrypoint : Text
  pub sliver : Option Text
  pub env_vars : List (Text × Text)
  pub limits : AppLimits
  pub vfs_backend : VfsBackendType
  pub vfs_disk : Option VfsDiskConfig
  pub vfs_s3 : Option VfsS3Config

abbrev pub default_app : AppConfig
default_app = record {
  hostname = [];
  entrypoint = [];
  sliver = none;
  env_vars = [];
  limits = default_limits;
  vfs_backend = memory;
  vfs_disk = none;
  vfs_s3 = none;
}

pub record ServerConfigSection : Type 0 where
  pub port : ℕ
  pub host : Text

abbrev pub default_server : ServerConfigSection
default_server = record { port = 8080; host = bytes "0.0.0.0" }

pub record NanoConfig : Type 0 where
  pub apps : List AppConfig
  pub server : ServerConfigSection

-- Neither an entrypoint nor a sliver.
abbrev pub lacks_source : Text → Option Text → Bool
lacks_source entrypoint none = is_empty entrypoint
lacks_source entrypoint (some sliver) = false

unfoldable pub check_entrypoint : Files → Option Text → Text → List ConfigError
unfolding contains_dotdot
check_entrypoint files base_path entrypoint =
    if is_empty entrypoint
    then []
    else if contains_dotdot entrypoint
    then entrypoint_dotdot entrypoint ∷ []
    else check_source files base_path entrypoint entrypoint_not_found entrypoint_not_file

unfoldable pub check_sliver : Files → Option Text → Option Text → List ConfigError
unfolding contains_dotdot
check_sliver files base_path none = []
check_sliver files base_path (some sliver) =
    if is_empty sliver
    then sliver_empty ∷ []
    else if contains_dotdot sliver
    then sliver_dotdot sliver ∷ []
    else check_source files base_path sliver sliver_not_found sliver_not_file

unfoldable pub check_limits : AppLimits → List ConfigError
check_limits limits =
    check_range memory_range 16 (heap_size_bytes_max / (1024 * 1024)) limits.memory_mb
    ++ (check_range timeout_range 1 (timeout_ms / 1000) limits.timeout_secs
        ++ (check_range workers_range 1 workers_per_app_max limits.workers
            ++ check_range cpu_range 1 1000 limits.cpu_time_ms))

unfoldable pub check_app : Files → Option Text → AppConfig → List ConfigError
unfolding check_entrypoint check_sliver check_limits
check_app files base_path app =
    check_hostname app.hostname
    ++ (add_if (lacks_source app.entrypoint app.sliver) no_source
        ++ (check_entrypoint files base_path app.entrypoint
            ++ (check_sliver files base_path app.sliver
                ++ (check_limits app.limits
                    ++ (check_env_vars app.env_vars
                        ++ check_backend app.vfs_backend app.vfs_disk app.vfs_s3)))))

unfoldable pub validate_config : AppConfig → Files → Option Text → Validation
unfolding check_app
validate_config app files base_path = verdict (check_app files base_path app)

-- The loop over the apps, from index i on.
unfoldable pub check_apps : Files → Option Text → ℕ → List AppConfig → List ConfigError
unfolding check_app
check_apps files base_path i [] = []
check_apps files base_path i (app ∷ apps) =
    under_app i app.hostname (check_app files base_path app)
    ++ check_apps files base_path (i + 1) apps

abbrev pub check_server : ServerConfigSection → List ConfigError
check_server server =
    add_if (server.port == 0) port_zero ++ add_if (is_empty server.host) host_empty

unfoldable pub check_config : Files → Option Text → NanoConfig → List ConfigError
unfolding check_apps check_duplicates
check_config files base_path config =
    check_count (length config.apps)
    ++ (check_duplicates [] (map (λ (app : AppConfig). app.hostname) config.apps)
        ++ (check_apps files base_path 0 config.apps ++ check_server config.server))

unfoldable pub validate_nano_config : NanoConfig → Files → Option Text → Validation
unfolding check_config
validate_nano_config config files base_path = verdict (check_config files base_path config)
