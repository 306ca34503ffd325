-- ===== src/Config/Loader.antt =====
-- src/config/loader.rs: the references to environment variables in a configuration file, and its
-- loading. The characters of the syntax are ASCII, so the text is read byte by byte.
pub mod Parse
pub mod Segments
pub mod Load
use nano_rs.Common.{
  ℕ, zero, suc, ◌*◌, Bool, true, false, not, ◌&&◌, ◌||◌, Option, none, some, List, [], ◌∷◌, ◌++◌,
  Text, length, ltb, ◌==◌, if◌then◌else◌,
}
use nano_rs.Config.Hostname.{starts_with, is_ascii_alphanumeric}
use nano_rs.Config.Checks.{ConfigError, Files, Validation, valid, invalid}
use nano_rs.Config.Root.{NanoConfig, validate_nano_config}

pub data ReadError : Type 0 where
  unclosed_default bad_syntax : ReadError
  bad_character : (character : ℕ) → (var_name : Text) → ReadError
  unclosed_reference : (var_name : Text) → ReadError

-- What `parse_var_ref` returns, with the characters that are left.
pub data VarRef : Type 0 where
  var_ref : (var_name : Text) → (default_value : Option Text) → (rest : Text) → VarRef
  no_ref : ReadError → VarRef

-- The inner loop, behind `:-`.
unfoldable pub parse_default : Text → Text → Text → VarRef
parse_default var_name default [] = no_ref unclosed_default
parse_default var_name default (ch ∷ s) =
    let longer = parse_default var_name (default ++ (ch ∷ [])) s in
    if ch == b'}' then var_ref var_name (some default) s else longer

unfoldable pub parse_colon : Text → Text → VarRef
unfolding parse_default
parse_colon var_name [] = no_ref bad_syntax
parse_colon var_name (ch ∷ s) =
    if ch == b'-' then parse_default var_name [] s else no_ref bad_syntax

abbrev pub is_name_byte : ℕ → Bool
is_name_byte ch = is_ascii_alphanumeric ch || ch == b'_'

unfoldable pub parse_var_ref : Text → Text → VarRef
unfolding parse_colon
parse_var_ref var_name [] = no_ref (unclosed_reference var_name)
parse_var_ref var_name (ch ∷ s) =
    let longer = parse_var_ref (var_name ++ (ch ∷ [])) s in
    if ch == b'}'
    then var_ref var_name none s
    else if ch == b':'
    then parse_colon var_name s
    else if is_name_byte ch
    then longer
    else no_ref (bad_character ch var_name)

-- `std::env::var`, then the default, then nothing.
abbrev pub value_of : (Text → Option Text) → Text → Option Text → Text
value_of env var_name default = elim (env var_name) [
  | some value ↦ value
  | none ↦ elim default [ some value ↦ value | none ↦ [] ]
]

pub data Substituted : Type 0 where
  done : (result : Text) → Substituted
  failed : ReadError → Substituted
  out_of_fuel : Substituted

abbrev pub push_front : Text → Substituted → Substituted
push_front t (done result) = done (t ++ result)
push_front t (failed why) = failed why
push_front t out_of_fuel = out_of_fuel

-- Behind the `{`.
abbrev pub behind : Text → Text
behind [] = []
behind (_ ∷ s) = s

-- Each round of the loop takes a unit of fuel.
unfoldable pub substitute_from : (Text → Option Text) → ℕ → Text → Substituted
unfolding parse_var_ref
substitute_from env zero text = out_of_fuel
substitute_from env (suc fuel) [] = done []
substitute_from env (suc fuel) (ch ∷ s) =
    let plain = push_front (ch ∷ []) (substitute_from env fuel s) in
    elim (ch == b'$' && starts_with b'{' s) [
      | true ↦ elim (parse_var_ref [] (behind s)) [
        | var_ref name default rest ↦
            push_front (value_of env name default) (substitute_from env fuel rest)
        | no_ref why ↦ failed why
      ]
      | false ↦ plain
    ]

unfoldable pub substitute_env_vars : (Text → Option Text) → Text → Substituted
unfolding substitute_from
substitute_env_vars env text = substitute_from env (suc (length text)) text

abbrev pub max_config_size : ℕ
max_config_size = 1024 * 1024

pub data LoadError : Type 0 where
  not_found not_file no_metadata too_large unreadable invalid_json : LoadError
  bad_reference : ReadError → LoadError
  not_valid : (errors : List ConfigError) → LoadError

pub data Loaded : Type 0 where
  loaded : NanoConfig → Loaded
  load_failed : LoadError → Loaded

abbrev pub judged : Validation → NanoConfig → Loaded
judged valid config = loaded config
judged (invalid errors) config = load_failed (not_valid errors)

-- The outside world: the file system, with the size and the content of a file where they can be
-- read, the variables of the process, and `serde_json::from_str`.
pub record World : Type 0 where
  pub files : Files
  pub size : Text → Option ℕ
  pub read_to_string : Text → Option Text
  pub env : Text → Option Text
  pub from_str : Text → Option NanoConfig
  pub parent : Text → Option Text

-- From the substituted text on.
unfoldable pub parse_and_validate : World → Text → Substituted → Loaded
parse_and_validate world path (failed why) = load_failed (bad_reference why)
parse_and_validate world path out_of_fuel = load_failed unreadable
parse_and_validate world path (done substituted) = elim (world.from_str substituted) [
  | none ↦ load_failed invalid_json
  | some config ↦ judged (validate_nano_config config world.files (world.parent path)) config
]

unfoldable pub load_config : World → Text → Loaded
unfolding substitute_env_vars parse_and_validate
load_config world path =
    if not (world.files.exists path)
    then load_failed not_found
    else if not (world.files.is_file path)
    then load_failed not_file
    else elim (world.size path) [
      | none ↦ load_failed no_metadata
      | some len ↦
          if ltb max_config_size len
          then load_failed too_large
          else elim (world.read_to_string path) [
            | none ↦ load_failed unreadable
            | some content ↦ parse_and_validate world path (substitute_env_vars world.env content)
          ]
    ]
