-- ===== src/App/Reload/Serves.antt =====
-- What a registry serves after a reload.
use nano_rs.Common.{
  ◌≡◌, ◌≢◌, refl, sym, ap, subst, ◌∙◌, Bool, true, false, not, ◌||◌, Option, none, some, List, [],
  ◌∷◌, Text, map, get, put, get-put, has_key, is_empty, keep, str_eq, str_eq_iff, if◌then◌else◌,
  arith, Bool-cases, Option-cases, inl, inr,
}
use nano_rs.Config.Root.{AppConfig, NanoConfig}
use nano_rs.Config.Loader.{World, Loaded, loaded, load_failed, load_config}
use nano_rs.App.Reload.{
  AppRegistry, collect, from_config, get_app, contains_app, ConfigDiff, has_changes,
  config_load_error, reloaded, same_app, is_modified, calculate_diff, reload_config,
}

-- The last app of a configuration with a hostname.
unfoldable pub last_app : Text → Option AppConfig → List AppConfig → Option AppConfig
last_app host found [] = found
last_app host found (app ∷ apps) =
    last_app host (if str_eq app.hostname host then some app else found) apps

get-collect :
    (host : Text) (config : List AppConfig) (apps : List (Text × AppConfig))
    → get host (collect config apps) ≡ last_app host (get host apps) config
unfolding collect last_app
get-collect host [] apps = refl
get-collect host (app ∷ config) apps =
    get-collect host config (put app.hostname app apps)
    ∙ ap (λ found. last_app host found config) (get-put app.hostname host app apps)

get_app-from_config :
    (host : Text) (config : NanoConfig)
    → get_app host (from_config config) ≡ last_app host none config.apps
unfolding get_app from_config get
get_app-from_config host config = get-collect host config.apps []

keep-get :
    (p : Text → Bool) (host : Text) (app : AppConfig) (apps : List (Text × AppConfig))
    → get host apps ≡ some app
    → keep p (map (λ entry. entry.0) apps) ≡ []
    → p host ≡ false
unfolding get
keep-get p host app [] found none_kept = cc found
keep-get p host app ((h, a) ∷ apps) found none_kept = elim (Bool-cases (p h)) [
  | inl stays ↦ cc (rw stays at none_kept)
  | inr goes ↦ elim (Bool-cases (str_eq h host)) [
    | inl same ↦ subst (λ x. p x ≡ false) ((str_eq_iff h host).0 same) goes
    | inr other ↦ keep-get p host app apps (rw other at found) (rw goes at none_kept)
  ]
]

has_key-none :
    (host : Text) (apps : List (Text × AppConfig))
    → get host apps ≡ none
    → has_key host apps ≡ false
has_key-none host apps missing = rw (has_key, missing) refl

all_empty : (names : List Text) → is_empty names ≡ true → names ≡ []
all_empty [] e = refl
all_empty (n ∷ names) e = cc e

none_of_three :
    (a b c : Bool) → (not a || (not b || not c)) ≡ false → (a ≡ true) × ((b ≡ true) × (c ≡ true))
none_of_three a b c e = (ground (arith, e), (ground (arith, e), ground (arith, e)))

module _ (same : AppConfig → AppConfig → Bool)
    (same_eq : (a b : AppConfig) → same a b ≡ true → a ≡ b) where
  same_app-eq : (a b : Option AppConfig) → same_app same a b ≡ true → a ≡ b
  same_app-eq none none e = refl
  same_app-eq none (some b) e = cc e
  same_app-eq (some a) none e = cc e
  same_app-eq (some a) (some b) e = ap some (same_eq a b e)

  -- A hostname of both registries whose app is not modified.
  unmodified :
      (current next : AppRegistry) (host : Text)
      → not (contains_app host current) ≡ false
      → is_modified same current next host ≡ false
      → get_app host current ≡ get_app host next
  unfolding is_modified
  unmodified current next host there kept =
      same_app-eq (get_app host current) (get_app host next) (ground (arith, there, kept))

  not_removed :
      (next : AppRegistry) (host : Text)
      → get host next.apps ≡ none
      → not (contains_app host next) ≢ false
  unfolding contains_app get_app
  not_removed next host missing kept =
      let gone : contains_app host next ≡ false = has_key-none host next.apps missing in
      cc (rw gone at kept)

  -- Registries without a difference give the same apps.
  get_app-calculate_diff :
      (current next : AppRegistry) (host : Text)
      → has_changes (calculate_diff same current next) ≡ false
      → get_app host current ≡ get_app host next
  unfolding get_app calculate_diff contains_app is_modified
  get_app-calculate_diff current next host quiet =
      let diff = calculate_diff same current next in
      let (a, (r, m)) =
        none_of_three (is_empty diff.added) (is_empty diff.removed) (is_empty diff.modified)
          quiet in
      elim (Option-cases (get host next.apps)) [
        | inr (b, there) ↦
            unmodified current next host
              (keep-get _ host b next.apps there (all_empty diff.added a))
              (keep-get _ host b next.apps there (all_empty diff.modified m))
        | inl missing ↦ elim (Option-cases (get host current.apps)) [
          | inl was_missing ↦ was_missing ∙ sym missing
          | inr (b, was) ↦ absurd (
              not_removed next host missing
                (keep-get _ host b current.apps was (all_empty diff.removed r)))
        ]
      ]

  swapped :
      (current r : AppRegistry) (diff : ConfigDiff) (config : NanoConfig)
      → (if has_changes (calculate_diff same current (from_config config))
          then reloaded (from_config config) (calculate_diff same current (from_config config))
          else reloaded current (calculate_diff same current (from_config config)))
        ≡ reloaded r diff
      → (host : Text) → get_app host r ≡ last_app host none config.apps
  swapped current r diff config e host =
      let next = from_config config in
      let served = get_app-from_config host config in
      elim (Bool-cases (has_changes (calculate_diff same current next))) [
        | inl changed ↦
            let swap : next ≡ r = cc (rw changed at e) in ap (get_app host) (sym swap) ∙ served
        | inr quiet ↦
            let stay : current ≡ r = cc (rw quiet at e) in
            ap (get_app host) (sym stay) ∙ get_app-calculate_diff current next host quiet ∙ served
      ]

  outcome-loaded :
      (l : Loaded) (current r : AppRegistry) (diff : ConfigDiff)
      → (elim l [
        | loaded config ↦
            if has_changes (calculate_diff same current (from_config config))
            then reloaded (from_config config) (calculate_diff same current (from_config config))
            else reloaded current (calculate_diff same current (from_config config))
        | load_failed error ↦ config_load_error error
      ])
        ≡ reloaded r diff
      → (config : NanoConfig) × (l ≡ loaded config)
        × ((host : Text) → get_app host r ≡ last_app host none config.apps)
  outcome-loaded (loaded config) current r diff e = (config, refl, swapped current r diff config e)
  outcome-loaded (load_failed error) current r diff e = cc e

  -- A reload that succeeds has loaded a valid configuration, and the registry then gives for each
  -- hostname the last app of it with this hostname, also where it was left as it was since nothing
  -- had changed.
  pub reload_config-last_app :
      (world : World) (path : Text) (current r : AppRegistry) (diff : ConfigDiff)
      → reload_config same world path current ≡ reloaded r diff
      → (config : NanoConfig) × (load_config world path ≡ loaded config)
        × ((host : Text) → get_app host r ≡ last_app host none config.apps)
  unfolding reload_config
  reload_config-last_app world path current r diff e =
      outcome-loaded (load_config world path) current r diff e
