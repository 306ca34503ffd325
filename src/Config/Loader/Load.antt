-- ===== src/Config/Loader/Load.antt =====
-- What `load_config` of src/config/loader.rs returns.
use nano_rs.Common.{
  ℕ, ◌≤◌, ◌≡◌, refl, ◌↔◌, inl, inr, true, false, some, Text, ltb, arith, Bool-cases, Option-cases,
  ◌∙◌, ap, subst,
}
use nano_rs.Config.Checks.{valid, invalid, Validation}
use nano_rs.Config.Root.{NanoConfig, validate_nano_config}
use nano_rs.Config.Root.Valid.{IsNano, validate_nano_config_iff}
use nano_rs.Config.Loader.{
  max_config_size, loaded, judged, World, parse_and_validate, load_config, Substituted, done,
  failed, out_of_fuel,
}
use nano_rs.Config.Loader.Segments.{Reads, substitute_env_vars_iff}

-- The file is there and not too long, its text can be substituted and parsed, and the
-- configuration is valid below the directory of the file.
pub record IsLoadable (world : World) (path : Text) (config : NanoConfig) : Type 0 where
  pub exists : world.files.exists path ≡ true
  pub is_file : world.files.is_file path ≡ true
  pub len : ℕ
  pub size : world.size path ≡ some len
  pub small : len ≤ max_config_size
  pub content : Text
  pub read : world.read_to_string path ≡ some content
  pub substituted : Text
  pub reads : Reads world.env content substituted
  pub parsed : world.from_str substituted ≡ some config
  pub checked : IsNano world.files (world.parent path) config

judged_iff : (v : Validation) (a b : NanoConfig) → (judged v a ≡ loaded b) ↔ ((v ≡ valid) × (a ≡ b))
judged_iff valid a b = (λ e. (refl, ground (arith, e)), λ p. ap loaded p.1)
judged_iff (invalid es) a b = (λ e. cc, λ p. cc)

-- From the substituted text on.
record IsParsed (world : World) (path : Text) (x : Substituted) (config : NanoConfig) : Type 0 where
  text : Text
  same : x ≡ done text
  parsed : world.from_str text ≡ some config
  checked : IsNano world.files (world.parent path) config

parse_and_validate_iff :
    (world : World) (path : Text) (x : Substituted) (config : NanoConfig)
    → (parse_and_validate world path x ≡ loaded config) ↔ IsParsed world path x config
unfolding parse_and_validate
parse_and_validate_iff world path (failed why) config = (λ e. cc, λ v. cc v.same)
parse_and_validate_iff world path out_of_fuel config = (λ e. cc, λ v. cc v.same)
parse_and_validate_iff world path (done text) config = (
  λ e. elim (Option-cases (world.from_str text)) [
    | inl none_of ↦ cc (rw (parse_and_validate, none_of) at e)
    | inr (c, parsed) ↦
        let (v, same) = (judged_iff _ c config).0 (rw (parse_and_validate, parsed) at e) in
        record {
          text = text;
          same = refl;
          parsed = parsed ∙ ap some same;
          checked =
              (validate_nano_config_iff world.files (world.parent path) config).0 (
                subst (λ d. validate_nano_config d world.files (world.parent path) ≡ valid) same v);
        }
  ],
  λ v.
      let parsed : world.from_str text ≡ some config =
        ap world.from_str (ground (arith, v.same)) ∙ v.parsed in
      rw
        (
          parse_and_validate,
          parsed,
          (validate_nano_config_iff world.files (world.parent path) config).1 v.checked,
        )
        refl,
)

ltb_small : (n : ℕ) → n ≤ max_config_size → ltb max_config_size n ≡ false
ltb_small n h = ground arith

-- `load_config` returns a configuration exactly if the file is there with at most 1 MiB, its text
-- can be read, its references are closed, the text with these replaced parses to the
-- configuration, and it is valid with the directory of the file as base.
pub load_config_iff :
    (world : World) (path : Text) (config : NanoConfig)
    → (load_config world path ≡ loaded config) ↔ IsLoadable world path config
unfolding load_config
load_config_iff world path config = (
  λ e. elim (Bool-cases (world.files.exists path)) [
    | inr absent ↦ cc (rw (load_config, absent) at e)
    | inl there ↦ elim (Bool-cases (world.files.is_file path)) [
      | inr other ↦ cc (rw (load_config, there, other) at e)
      | inl is_file ↦ elim (Option-cases (world.size path)) [
        | inl unknown ↦ cc (rw (load_config, there, is_file, unknown) at e)
        | inr (len, size) ↦ elim (Bool-cases (ltb max_config_size len)) [
          | inl long ↦ cc (rw (load_config, there, is_file, size, long) at e)
          | inr short ↦ elim (Option-cases (world.read_to_string path)) [
            | inl broken ↦ cc (rw (load_config, there, is_file, size, short, broken) at e)
            | inr (content, read) ↦
                let v =
                  (parse_and_validate_iff world path _ config).0
                    (rw (load_config, there, is_file, size, short, read) at e) in
                record {
                  exists = there;
                  is_file = is_file;
                  len = len;
                  size = size;
                  small = ground (arith, short);
                  content = content;
                  read = read;
                  substituted = v.text;
                  reads = (substitute_env_vars_iff world.env content v.text).0 v.same;
                  parsed = v.parsed;
                  checked = v.checked;
                }
          ]
        ]
      ]
    ]
  ],
  λ v.
      rw (load_config, v.exists, v.is_file, v.size, ltb_small v.len v.small, v.read)
        ((parse_and_validate_iff world path _ config).1 (record {
          text = v.substituted;
          same = (substitute_env_vars_iff world.env v.content v.substituted).1 v.reads;
          parsed = v.parsed;
          checked = v.checked;
        })),
)
