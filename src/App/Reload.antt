-- ===== src/App/Reload.antt =====
-- The registry of apps and its reload: src/app/registry.rs and src/app/reload.rs.
pub mod Serves
use nano_rs.Common.{
  ℕ, Bool, true, false, not, ◌||◌, Option, none, some, List, [], ◌∷◌, Text, length, map, get, put,
  has_key, is_empty, keep, if◌then◌else◌,
}
use nano_rs.Config.Root.{AppConfig, NanoConfig}
use nano_rs.Config.Loader.{World, LoadError, loaded, load_failed, load_config}

-- The slivers of the registry are left out: a configuration makes none.
pub record AppRegistry : Type 0 where
  pub apps : List (Text × AppConfig)

abbrev pub new : List (Text × AppConfig) → AppRegistry
new apps = record { apps = apps }

-- The apps collected by hostname: a later one takes the place of an earlier one.
unfoldable pub collect : List AppConfig → List (Text × AppConfig) → List (Text × AppConfig)
unfolding put
collect [] apps = apps
collect (app ∷ config) apps = collect config (put app.hostname app apps)

unfoldable pub from_config : NanoConfig → AppRegistry
unfolding collect
from_config config = new (collect config.apps [])

unfoldable pub get_app : Text → AppRegistry → Option AppConfig
unfolding get
get_app hostname r = get hostname r.apps

unfoldable pub contains_app : Text → AppRegistry → Bool
unfolding get
contains_app hostname r = has_key hostname r.apps

abbrev pub all_hostnames : AppRegistry → List Text
all_hostnames r = map (λ entry. entry.0) r.apps

abbrev pub count : AppRegistry → ℕ
count r = length r.apps

pub record ConfigDiff : Type 0 where
  pub added : List Text
  pub removed : List Text
  pub modified : List Text

abbrev pub has_changes : ConfigDiff → Bool
has_changes d = not (is_empty d.added) || (not (is_empty d.removed) || not (is_empty d.modified))

-- A reload that failed, with the error of the loading, or one that succeeded.
pub data Reload : Type 0 where
  config_load_error : (error : LoadError) → Reload
  reloaded : (registry : AppRegistry) → (diff : ConfigDiff) → Reload

-- The equality of two apps that the compiler derives.
module _ (same : AppConfig → AppConfig → Bool) where
  abbrev pub same_app : Option AppConfig → Option AppConfig → Bool
  same_app none none = true
  same_app (some a) (some b) = same a b
  same_app _ _ = false

  unfoldable pub is_modified : AppRegistry → AppRegistry → Text → Bool
  unfolding contains_app get_app
  is_modified current next hostname =
      if contains_app hostname current
      then not (same_app (get_app hostname current) (get_app hostname next))
      else false

  -- The hostnames of both registries, in some order.
  unfoldable pub calculate_diff : AppRegistry → AppRegistry → ConfigDiff
  unfolding contains_app is_modified
  calculate_diff current next = record {
    added = keep (λ h. not (contains_app h current)) (all_hostnames next);
    removed = keep (λ h. not (contains_app h next)) (all_hostnames current);
    modified = keep (is_modified current next) (all_hostnames next);
  }

  -- Whether the wait for requests in flight ended in time changes a message only.
  unfoldable pub reload_config : World → Text → AppRegistry → Reload
  unfolding load_config from_config calculate_diff
  reload_config world path current = elim (load_config world path) [
    | loaded config ↦
        let next = from_config config in
        let diff = calculate_diff current next in
        if has_changes diff then reloaded next diff else reloaded current diff
    | load_failed error ↦ config_load_error error
  ]
