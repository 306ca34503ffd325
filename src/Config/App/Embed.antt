-- ===== src/Config/App/Embed.antt =====
-- The two validations of an app compared: src/config/app.rs against src/config/mod.rs.
use nano_rs.Common.{◌≤◌, ◌≡◌, ◌≢◌, ◌↔◌, ◌⊎◌, inl, inr, Option, none, some, [], Text}
use nano_rs.Config.Checks.{Files, valid}
use nano_rs.Config.Root
use nano_rs.Config.Root.Valid
use nano_rs.Config.App.{AppConfig, validate_config}
use nano_rs.Config.App.Valid.{OrNone, IsSource, IsGiven, IsApp, validate_config_iff}

-- The app as src/config/mod.rs reads it.
abbrev pub root_app : AppConfig → Root.AppConfig
root_app app = record {
  hostname = app.hostname;
  entrypoint = app.entrypoint;
  sliver = app.sliver;
  env_vars = app.env_vars;
  limits = record {
    memory_mb = app.limits.memory_mb;
    timeout_secs = app.limits.timeout_secs;
    workers = app.limits.workers;
    cpu_time_ms = app.limits.cpu_time_ms;
    cpu_time_enabled = app.limits.cpu_time_enabled;
  };
  vfs_backend = app.vfs_backend;
  vfs_disk = app.vfs_disk;
  vfs_s3 = app.vfs_s3;
}

-- Of an app with an entrypoint, src/config/app.rs accepts exactly what src/config/mod.rs accepts
-- and has besides a CPU time of 1 to 1000 ms and a sliver, if it names one, that is there without
-- two dots in a row.
pub validate_config-root_app :
    (files : Files) (base_path : Option Text) (app : AppConfig)
    → app.entrypoint ≢ []
    → (validate_config app files base_path ≡ valid) ↔ (
        (Root.validate_config (root_app app) files base_path ≡ valid)
        × ((1 ≤ app.limits.cpu_time_ms) × (app.limits.cpu_time_ms ≤ 1000))
        × OrNone (IsSource files base_path) app.sliver)
validate_config-root_app files base_path app named = (
  λ e.
      let v = (validate_config_iff files base_path app).0 e in
      (
        (Root.Valid.validate_config_iff files base_path (root_app app)).1 (narrow v),
        v.limits.cpu,
        v.sliver,
      ),
  λ (e, c, s).
      (validate_config_iff files base_path app).1
        (widen ((Root.Valid.validate_config_iff files base_path (root_app app)).0 e) c s),
)
  where
    given : (s : Option Text) → IsGiven app.entrypoint s
    given none = named
    given (some s) = tt

    source :
        (app.entrypoint ≡ []) ⊎ IsSource files base_path app.entrypoint
        → IsSource files base_path app.entrypoint
    source (inl n) = absurd (named n)
    source (inr v) = v

    narrow : IsApp files base_path app → Root.Valid.IsApp files base_path (root_app app)
    narrow v =
        let entry = source v.entrypoint in
        record {
          hostname = v.hostname;
          entrypoint = named;
          confined = entry.confined;
          found = entry.found;
          limits = record {
            memory = v.limits.memory;
            timeout = v.limits.timeout;
            workers = v.limits.workers;
          };
          env_vars = v.env_vars;
          backend = v.backend;
        }

    widen :
        Root.Valid.IsApp files base_path (root_app app)
        → (1 ≤ app.limits.cpu_time_ms) × (app.limits.cpu_time_ms ≤ 1000)
        → OrNone (IsSource files base_path) app.sliver
        → IsApp files base_path app
    widen v c s = record {
      hostname = v.hostname;
      given = given app.sliver;
      entrypoint = inr (record { filled = named; confined = v.confined; found = v.found });
      sliver = s;
      limits = record {
        memory = v.limits.memory;
        timeout = v.limits.timeout;
        workers = v.limits.workers;
        cpu = c;
      };
      env_vars = v.env_vars;
      backend = v.backend;
    }
