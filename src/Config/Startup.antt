-- ===== src/Config/Startup.antt =====
-- `load_config` and `load_config_from_str` of src/config/mod.rs, which the server starts with,
-- against the `load_config` of src/config/loader.rs, which it reloads with.
use nano_rs.Common.{
  ◌≡◌, refl, sym, ap, ◌∙◌, ◌≢◌, Option, none, some, List, [], ◌∷◌, map, Text, All, arith,
}
use nano_rs.Config.Checks.{Files}
use nano_rs.Config.Root.{AppConfig, NanoConfig, validate_nano_config}
use nano_rs.Config.Root.Valid.{IsApp, IsNano, validate_nano_config_iff}
use nano_rs.Config.Loader.{
  unreadable, invalid_json, Loaded, loaded, load_failed, judged, World, done, substitute_env_vars,
}
use nano_rs.Config.Loader
use nano_rs.Config.Loader.Segments.{byte, print, eval, IsReadable, substitute_env_vars_iff}
use nano_rs.Config.Loader.Load.{load_config_iff}

-- `NanoConfig::validate`: without a base path no file is looked for.
unfoldable pub load_config_from_str : World → Text → Loaded
load_config_from_str world content = elim (world.from_str content) [
  | none ↦ load_failed invalid_json
  | some config ↦ judged (validate_nano_config config world.files none) config
]

unfoldable pub load_config : World → Text → Loaded
unfolding load_config_from_str
load_config world path = elim (world.read_to_string path) [
  | none ↦ load_failed unreadable
  | some content ↦ load_config_from_str world content
]

IsNano-none :
    (files : Files) (base_path : Option Text) (config : NanoConfig)
    → IsNano files base_path config
    → IsNano files none config
IsNano-none files base_path config v = record {
  count = v.count;
  apart = v.apart;
  apps = apps config.apps v.apps;
  port = v.port;
  host = v.host;
}
  where
    apps : (xs : List AppConfig) → All (IsApp files base_path) xs → All (IsApp files none) xs
    apps [] h = tt
    apps (x ∷ xs) h = (
      record {
        hostname = h.0.hostname;
        entrypoint = h.0.entrypoint;
        confined = h.0.confined;
        found = tt;
        limits = h.0.limits;
        env_vars = h.0.env_vars;
        backend = h.0.backend;
      },
      apps xs h.1,
    )

print-byte : (s : Text) → print (map byte s) ≡ s
unfolding print
print-byte [] = refl
print-byte (c ∷ s) = ap (λ t. c ∷ t) (print-byte s)

eval-byte : (env : Text → Option Text) (s : Text) → eval env (map byte s) ≡ s
unfolding eval
eval-byte env [] = refl
eval-byte env (c ∷ s) = ap (λ t. c ∷ t) (eval-byte env s)

bytes-IsReadable : (s : Text) → All (λ c. c ≢ b'$') s → IsReadable (map byte s)
unfolding IsReadable
bytes-IsReadable [] h = tt
bytes-IsReadable (c ∷ s) h = (ground (arith, h.0), bytes-IsReadable s h.1)

substitute_plain :
    (env : Text → Option Text) (s : Text)
    → All (λ c. c ≢ b'$') s
    → substitute_env_vars env s ≡ done s
substitute_plain env s h = (substitute_env_vars_iff env s s).1 (record {
  segments = map byte s;
  readable = bytes-IsReadable s h;
  printed = sym (print-byte s);
  evaluated = sym (eval-byte env s);
})

-- What the server reloads from a file without a dollar sign, it also starts with.
pub load_config-startup :
    (world : World) (path content : Text) (config : NanoConfig)
    → world.read_to_string path ≡ some content
    → All (λ c. c ≢ b'$') content
    → Loader.load_config world path ≡ loaded config
    → load_config world path ≡ loaded config
unfolding load_config load_config_from_str
load_config-startup world path content config read plain e =
    let v = (load_config_iff world path config).0 e in
    let same : v.content ≡ content = ground (arith, v.read, read) in
    let text : done v.substituted ≡ done content =
      sym ((substitute_env_vars_iff world.env v.content v.substituted).1 v.reads)
      ∙ ap (substitute_env_vars world.env) same
      ∙ substitute_plain world.env content plain in
    let parsed : world.from_str content ≡ some config =
      ap world.from_str (ground (arith, text)) ∙ v.parsed in
    rw
      (
        load_config,
        read,
        load_config_from_str,
        parsed,
        (validate_nano_config_iff world.files none config).1
            (IsNano-none world.files (world.parent path) config v.checked),
      )
      refl
