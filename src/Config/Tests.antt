-- ===== src/Config/Tests.antt =====
-- The theorems on the configuration at concrete values.
use nano_rs.Common.{
  false, ℕ, ◌≤◌, ◌≡◌, refl, ap, ◌≢◌, ◌↔◌, true, none, some, [], ◌∷◌, Text, bytes, length, All,
  arith, str_eq, contains, get,
}
use nano_rs.Vfs.Types.{ok}
use nano_rs.Vfs.Types.{test_limits}
use nano_rs.Vfs.Path.{normalize, split, split_parts, join_parts, any_dotdot, trim_start, trim_end}
use nano_rs.Vfs.Path
use nano_rs.Vfs.Memory.{MemoryBackend, store_file}
use nano_rs.Vfs.Memory
use nano_rs.Vfs.Isolate.{prefix_namespace, from_hostname}
use nano_rs.Vfs.Isolate
use nano_rs.App.Reload.{get_app, from_config, calculate_diff, reload_config, reloaded}
use nano_rs.App.Reload
use nano_rs.App.Reload.Serves.{last_app, reload_config-last_app}
use nano_rs.Config.Hostname.{
  is_valid_hostname, split_labels, all_labels, is_valid_label, all_label_bytes, contains_dotdot,
}
use nano_rs.Config.Hostname.Grammar.{IsHostname, is_valid_hostname_iff}
use nano_rs.Config.Checks.{Files, valid, memory}
use nano_rs.Config.Root.{
  AppConfig, NanoConfig, default_app, default_server, validate_config, validate_nano_config,
}
use nano_rs.Config.Checks
use nano_rs.Config.Root
use nano_rs.Config.Root.Valid.{IsNano, validate_nano_config_iff}
use nano_rs.Config.Root.Tenants.{validated_apart}
use nano_rs.Config.App
use nano_rs.Config.Loader.{World, Loaded, loaded, done, out_of_fuel, substitute_env_vars}
use nano_rs.Config.Loader
use nano_rs.Config.Loader.Segments.{Reads, substitute_env_vars_iff}
use nano_rs.Config.Loader.Load.{IsLoadable, load_config_iff}
use nano_rs.Config.Startup.{load_config-startup}
use nano_rs.Config.Startup
use nano_rs.Config.Cli.{accepted, validate_sliver_name, first_is_alphanumeric, max_sliver_name_len}
use nano_rs.Config.Cli.Agree.{is_sliver_byte, validate_sliver_name_iff}

is_valid_hostname_iff_example :
    (is_valid_hostname (bytes "api.shop-1.io") ≡ true) ↔ IsHostname (bytes "api.shop-1.io")
is_valid_hostname_iff_example = is_valid_hostname_iff (bytes "api.shop-1.io")

api_valid : is_valid_hostname (bytes "api.shop-1.io") ≡ true
unfolding is_valid_hostname split_labels all_labels is_valid_label all_label_bytes
api_valid = refl

-- A file system in which everything is a file.
abbrev all_files : Files
all_files = record { exists = λ p. true; is_file = λ p. true }

abbrev shop : AppConfig
shop = record default_app { hostname = bytes "Shop.io"; entrypoint = bytes "shop.js" }

abbrev blog : AppConfig
blog = record default_app { hostname = bytes "blog.io"; entrypoint = bytes "blog.js" }

abbrev two_apps : NanoConfig
two_apps = record { apps = shop ∷ blog ∷ []; server = default_server }

validate_nano_config_iff_example :
    (validate_nano_config two_apps all_files (some (bytes "/etc")) ≡ valid)
    ↔ IsNano all_files (some (bytes "/etc")) two_apps
validate_nano_config_iff_example = validate_nano_config_iff all_files (some (bytes "/etc")) two_apps

abbrev world : World
world = record {
  files = all_files;
  size = λ p. some 20;
  read_to_string = λ p. some (bytes "host: localhost");
  env = λ v. none;
  from_str = λ t. some two_apps;
  parent = λ p. some (bytes "/etc");
}

substitute_env_vars_iff_example :
    (substitute_env_vars (λ v. none) (bytes "port=${PORT:-80}") ≡ done (bytes "port=80"))
    ↔ Reads (λ v. none) (bytes "port=${PORT:-80}") (bytes "port=80")
substitute_env_vars_iff_example =
    substitute_env_vars_iff (λ v. none) (bytes "port=${PORT:-80}") (bytes "port=80")

port_substituted :
    substitute_env_vars (λ v. none) (bytes "port=${PORT:-80}") ≡ done (bytes "port=80")
unfolding substitute_env_vars Loader.substitute_from Loader.parse_var_ref Loader.parse_colon
    Loader.parse_default
port_substituted = refl

load_config_iff_example :
    (Loader.load_config world (bytes "nano.json") ≡ loaded two_apps)
    ↔ IsLoadable world (bytes "nano.json") two_apps
load_config_iff_example = load_config_iff world (bytes "nano.json") two_apps

two_loaded : Loader.load_config world (bytes "nano.json") ≡ loaded two_apps
unfolding Loader.load_config Loader.parse_and_validate substitute_env_vars Loader.substitute_from
    Loader.parse_var_ref validate_nano_config Root.check_config Root.check_apps Root.check_app
    Root.check_entrypoint Root.check_limits Checks.check_hostname Checks.check_env_vars
    Checks.check_backend Checks.check_duplicates Checks.is_seen Checks.check_source Checks.full_path
    is_valid_hostname split_labels all_labels is_valid_label all_label_bytes contains_dotdot str_eq
two_loaded = refl

load_config-startup_example : Startup.load_config world (bytes "nano.json") ≡ loaded two_apps
load_config-startup_example =
    load_config-startup world (bytes "nano.json") (bytes "host: localhost") two_apps refl
      (omega arith) two_loaded

abbrev scripted : App.AppConfig
scripted = record App.default_app { hostname = bytes "shop.io"; entrypoint = bytes "shop.js" }

validate_sliver_name_iff_example : (validate_sliver_name (bytes "cart_v2") ≡ accepted) ↔ (
    (first_is_alphanumeric (bytes "cart_v2") ≡ true)
    × (length (bytes "cart_v2") ≤ max_sliver_name_len)
    × All (λ c. is_sliver_byte c ≡ true) (bytes "cart_v2"))
validate_sliver_name_iff_example = validate_sliver_name_iff (bytes "cart_v2")

abbrev empty : MemoryBackend
empty = record { storage = []; limits = test_limits; total_bytes = 0; file_count = 0 }

abbrev shop_store : MemoryBackend
shop_store = store_file 9 empty (bytes "shop_io::cart") (1 ∷ 2 ∷ [])

shop_valid : validate_config shop all_files none ≡ valid
unfolding validate_config Root.check_app Root.check_entrypoint Root.check_limits
    Checks.check_hostname Checks.check_env_vars Checks.check_backend Checks.check_source
    is_valid_hostname split_labels all_labels is_valid_label all_label_bytes contains_dotdot
shop_valid = refl

blog_valid : validate_config blog all_files none ≡ valid
unfolding validate_config Root.check_app Root.check_entrypoint Root.check_limits
    Checks.check_hostname Checks.check_env_vars Checks.check_backend Checks.check_source
    is_valid_hostname split_labels all_labels is_valid_label all_label_bytes contains_dotdot
blog_valid = refl

shop-write :
    Isolate.write 9
      (record { namespace = from_hostname shop.hostname; backend = empty })
      (bytes "/cart")
      (1 ∷ 2 ∷ [])
    ≡ ok shop_store
unfolding Isolate.write Memory.write prefix_namespace from_hostname get str_eq Path.new normalize
    split split_parts join_parts any_dotdot trim_start trim_end contains
shop-write = refl

abbrev first_byte : Text → ℕ
first_byte [] = 0
first_byte (c ∷ s) = c

shop-ne-blog : from_hostname shop.hostname ≢ from_hostname blog.hostname
unfolding from_hostname
shop-ne-blog = λ e. omega (arith, ap first_byte e)

validated_apart_example :
    Isolate.read
      (record { namespace = from_hostname blog.hostname; backend = shop_store })
      (bytes "cart")
    ≡ Isolate.read
        (record { namespace = from_hostname blog.hostname; backend = empty })
        (bytes "cart")
validated_apart_example =
    validated_apart all_files none shop blog 9 (bytes "/cart") (bytes "cart") (1 ∷ 2 ∷ []) empty
      shop_store shop_valid blog_valid shop-ne-blog shop-write

swapped_in :
    reload_config (λ a b. false) world (bytes "nano.json") (Reload.new [])
    ≡ reloaded
        (from_config two_apps)
        (calculate_diff (λ a b. false) (Reload.new []) (from_config two_apps))
unfolding reload_config Loader.load_config Loader.parse_and_validate substitute_env_vars
    Loader.substitute_from Loader.parse_var_ref validate_nano_config Root.check_config
    Root.check_apps Root.check_app Root.check_entrypoint Root.check_limits Checks.check_hostname
    Checks.check_env_vars Checks.check_backend Checks.check_duplicates Checks.is_seen
    Checks.check_source Checks.full_path is_valid_hostname split_labels all_labels is_valid_label
    all_label_bytes contains_dotdot str_eq
swapped_in = refl

reload_config-last_app_example :
    (config : NanoConfig) × (Loader.load_config world (bytes "nano.json") ≡ loaded config)
    × ((host : Text) → get_app host (from_config two_apps) ≡ last_app host none config.apps)
reload_config-last_app_example =
    reload_config-last_app (λ a b. false) (λ a b e. cc e) world (bytes "nano.json") (Reload.new [])
      (from_config two_apps) (calculate_diff (λ a b. false) (Reload.new []) (from_config two_apps))
      swapped_in
