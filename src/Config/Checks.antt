-- ===== src/Config/Checks.antt =====
-- The checks that both validations of src/config make, in src/config/mod.rs and in
-- src/config/app.rs. An error message is a constructor for its format string, with the arguments;
-- a check gives the errors that it adds, in order.
pub mod Clean
use nano_rs.Common.{
  ℕ, Bool, true, false, not, ◌||◌, Option, none, some, List, [], ◌∷◌, ◌++◌, Text, is_empty,
  contains, length, ltb, ◌==◌, if◌then◌else◌, to_lowercase, str_eq,
}
use nano_rs.Config.Hostname.{starts_with, ends_with, contains_dotdot, is_valid_hostname}

pub data ConfigError : Type 0 where
  hostname_empty : ConfigError
  hostname_invalid : (hostname : Text) → ConfigError
  entrypoint_empty no_source : ConfigError
  entrypoint_dotdot : (entrypoint : Text) → ConfigError
  entrypoint_not_found : (entrypoint resolved : Text) → ConfigError
  entrypoint_not_file : (entrypoint : Text) → ConfigError
  sliver_empty : ConfigError
  sliver_dotdot : (sliver : Text) → ConfigError
  sliver_not_found : (sliver resolved : Text) → ConfigError
  sliver_not_file : (sliver : Text) → ConfigError
  memory_range timeout_range workers_range cpu_range : (min max got : ℕ) → ConfigError
  env_key_empty : ConfigError
  env_key_suspicious : (key : Text) → ConfigError
  env_value_long : (key : Text) → ConfigError
  disk_missing disk_path_empty disk_path_dotdot : ConfigError
  s3_missing s3_endpoint_empty s3_bucket_empty s3_access_key_empty s3_secret_key_empty : ConfigError
  no_apps : ConfigError
  too_many_apps : (count : ℕ) → ConfigError
  duplicate_hostname : (hostname : Text) → ConfigError
  in_app : (index : ℕ) → (hostname : Text) → ConfigError → ConfigError
  port_zero host_empty : ConfigError

-- `Result<(), ValidationErrors>`.
pub data Validation : Type 0 where
  valid : Validation
  invalid : (errors : List ConfigError) → Validation

-- The end of a validation: `if errors.is_empty() { Ok(()) } else { Err(errors) }`.
abbrev pub verdict : List ConfigError → Validation
verdict [] = valid
verdict (e ∷ errors) = invalid (e ∷ errors)

-- `if test { errors.add(error); }`.
abbrev pub add_if : Bool → ConfigError → List ConfigError
add_if test error = if test then error ∷ [] else []

-- What the file system answers: `exists` and `is_file`.
pub record Files : Type 0 where
  pub exists : Text → Bool
  pub is_file : Text → Bool

-- `Path::join` of a base with a relative path.
abbrev join_path : Text → Text → Text
join_path base path =
    if is_empty base || ends_with b'/' base then base ++ path else base ++ (b'/' ∷ path)

-- The path itself if it is absolute, else the path in the base directory.
unfoldable pub full_path : Text → Text → Text
full_path base path = if starts_with b'/' path then path else join_path base path

-- The search for a source in the base directory, if there is one.
unfoldable pub check_source :
    Files
    → Option Text
    → Text
    → (Text → Text → ConfigError)
    → (Text → ConfigError)
    → List ConfigError
unfolding full_path
check_source files none path not_found not_file = []
check_source files (some base) path not_found not_file =
    if not (files.exists (full_path base path))
    then not_found path (full_path base path) ∷ []
    else if not (files.is_file (full_path base path))
    then not_file path ∷ []
    else []

abbrev pub check_range : (ℕ → ℕ → ℕ → ConfigError) → ℕ → ℕ → ℕ → List ConfigError
check_range error min max n = add_if (ltb n min || ltb max n) (error min max n)

unfoldable pub check_hostname : Text → List ConfigError
unfolding is_valid_hostname
check_hostname hostname =
    if is_empty hostname
    then hostname_empty ∷ []
    else if not (is_valid_hostname hostname)
    then hostname_invalid hostname ∷ []
    else []

-- The loop over the environment variables.
unfoldable pub check_env_vars : List (Text × Text) → List ConfigError
unfolding contains_dotdot contains
check_env_vars [] = []
check_env_vars ((key, value) ∷ env) =
    add_if (is_empty key) env_key_empty
    ++ (add_if (contains_dotdot key || contains b'/' key || contains b'\\' key)
          (env_key_suspicious key)
        ++ (add_if (ltb 65536 (length value)) (env_value_long key) ++ check_env_vars env))

pub data VfsBackendType : Type 0 where
  memory disk s3 : VfsBackendType

pub record VfsDiskConfig : Type 0 where
  pub base_path : Text

pub record VfsS3Config : Type 0 where
  pub endpoint : Text
  pub bucket : Text
  pub region : Text
  pub access_key : Text
  pub secret_key : Text
  pub prefix : Option Text
  pub path_style : Bool

unfoldable pub check_backend :
    VfsBackendType → Option VfsDiskConfig → Option VfsS3Config → List ConfigError
unfolding contains_dotdot
check_backend memory d s = []
check_backend disk none s = disk_missing ∷ []
check_backend disk (some d) s =
    if is_empty d.base_path
    then disk_path_empty ∷ []
    else if contains_dotdot d.base_path
    then disk_path_dotdot ∷ []
    else []
check_backend s3 d none = s3_missing ∷ []
check_backend s3 d (some s) =
    add_if (is_empty s.endpoint) s3_endpoint_empty
    ++ (add_if (is_empty s.bucket) s3_bucket_empty
        ++ (add_if (is_empty s.access_key) s3_access_key_empty
            ++ add_if (is_empty s.secret_key) s3_secret_key_empty))

unfoldable pub is_seen : Text → List Text → Bool
unfolding str_eq
is_seen hostname [] = false
is_seen hostname (h ∷ seen) = str_eq hostname h || is_seen hostname seen

-- The search for duplicate hostnames, with the set of those seen.
unfoldable pub check_duplicates : List Text → List Text → List ConfigError
unfolding is_seen
check_duplicates seen [] = []
check_duplicates seen (hostname ∷ hostnames) =
    let lower = to_lowercase hostname in
    let again = check_duplicates seen hostnames in
    let first = check_duplicates (lower ∷ seen) hostnames in
    if is_seen lower seen then duplicate_hostname hostname ∷ again else first

abbrev pub check_count : ℕ → List ConfigError
check_count n = if n == 0 then no_apps ∷ [] else if ltb 1000 n then too_many_apps n ∷ [] else []

-- The errors of an app, as those of the configuration.
abbrev pub under_app : ℕ → Text → List ConfigError → List ConfigError
under_app i hostname [] = []
under_app i hostname (e ∷ errors) = in_app i hostname e ∷ under_app i hostname errors
