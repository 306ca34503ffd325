-- ===== src/Config/Checks/Clean.antt =====
-- When each check adds nothing.
use mathlib.Core.List.{append-eq-nil_iff}
use nano_rs.Common.{
  ℕ, ◌≤◌, ◌≡◌, refl, sym, ◌≢◌, ◌↔◌, inl, inr, Bool, true, false, Option, none, some, List, [], ◌∷◌,
  ◌++◌, Text, length, is_empty, contains, All, to_lowercase, arith, str_eq_iff, map, str_eq,
  Bool-cases, ne_true,
}
use nano_rs.Config.Hostname.{contains_dotdot, is_valid_hostname}
use nano_rs.Config.Hostname.Grammar.{IsHostname, is_valid_hostname_iff}
use nano_rs.Config.Checks.{
  ConfigError, Files, full_path, check_source, check_range, check_hostname, check_env_vars,
  VfsBackendType, memory, disk, s3, VfsDiskConfig, VfsS3Config, check_backend, is_seen,
  check_duplicates, check_count, add_if, under_app,
}

-- Two checks in a row.
pub both {ℓ κ μ} :
    {A : Type ℓ} {P : Type κ} {Q : Type μ} {xs ys : List A}
    → (xs ≡ []) ↔ P
    → (ys ≡ []) ↔ Q
    → (xs ++ ys ≡ []) ↔ (P × Q)
both p q = (
  λ e. let (x, y) = append-eq-nil_iff.0 e in (p.0 x, q.0 y),
  λ (x, y). append-eq-nil_iff.1 (p.1 x, q.1 y),
)

add_if_iff : (test : Bool) (e : ConfigError) → (add_if test e ≡ []) ↔ (test ≡ false)
add_if_iff test e = ground arith

pub is_empty_iff : (t : Text) → (is_empty t ≡ false) ↔ (t ≢ [])
is_empty_iff [] = (λ e. cc, λ n. absurd (n refl))
is_empty_iff (c ∷ t) = (λ e p. cc, λ n. refl)

-- No two dots in a row.
abbrev pub NoDotDot : Text → Type 0
NoDotDot t = ¬ ((a : Text) × (b : Text) × (t ≡ a ++ (b'.' ∷ b'.' ∷ b)))

contains_dotdot-append : (a b : Text) → contains_dotdot (a ++ (b'.' ∷ b'.' ∷ b)) ≡ true
unfolding contains_dotdot
contains_dotdot-append [] b = refl
contains_dotdot-append (c ∷ a) b = ground (arith, contains_dotdot-append a b)

contains_dotdot-NoDotDot : (t : Text) → contains_dotdot t ≡ false → NoDotDot t
contains_dotdot-NoDotDot t e = λ (a, b, p). ground (arith, contains_dotdot-append a b, p, e)

find_dotdot :
    (t : Text) → contains_dotdot t ≡ true → (a : Text) × (b : Text) × (t ≡ a ++ (b'.' ∷ b'.' ∷ b))
unfolding contains_dotdot
find_dotdot [] e = cc
find_dotdot (c ∷ []) e = ground arith
find_dotdot (c ∷ d ∷ t) e = elim (Bool-cases (contains_dotdot (d ∷ t))) [
  | inl later ↦ let (a, b, p) = find_dotdot (d ∷ t) later in (c ∷ a, b, cc p)
  | inr here ↦ ([], t, ground arith)
]

pub contains_dotdot_iff : (t : Text) → (contains_dotdot t ≡ false) ↔ NoDotDot t
contains_dotdot_iff t =
    (contains_dotdot-NoDotDot t, λ n. ne_true (contains_dotdot t) (λ e. n (find_dotdot t e)))

pub check_hostname_iff : (h : Text) → (check_hostname h ≡ []) ↔ IsHostname h
unfolding check_hostname is_valid_hostname
check_hostname_iff [] = (λ e. cc, λ v. cc ((is_valid_hostname_iff []).1 v))
check_hostname_iff (c ∷ h) = ground (arith, is_valid_hostname_iff (c ∷ h))

pub check_range_iff :
    (error : ℕ → ℕ → ℕ → ConfigError) (min max n : ℕ)
    → (check_range error min max n ≡ []) ↔ ((min ≤ n) × (n ≤ max))
check_range_iff error min max n = ground arith

-- A source is there, where there is a base directory to look in.
abbrev pub IsFound : Files → Option Text → Text → Type 0
IsFound files none path = Unit
IsFound files (some base) path =
    (files.exists (full_path base path) ≡ true) × (files.is_file (full_path base path) ≡ true)

pub check_source_iff :
    (files : Files) (base : Option Text) (path : Text) (not_found : Text → Text → ConfigError)
    (not_file : Text → ConfigError)
    → (check_source files base path not_found not_file ≡ []) ↔ IsFound files base path
unfolding check_source
check_source_iff files none path not_found not_file = (λ _. tt, λ _. refl)
check_source_iff files (some base) path not_found not_file = ground arith

-- A key that names no path, and a value of at most 64 KiB.
pub record IsVariable (v : Text × Text) : Type 0 where
  pub filled : v.0 ≢ []
  pub flat : NoDotDot v.0
  pub slashless : contains b'/' v.0 ≡ false
  pub backslashless : contains b'\\' v.0 ≡ false
  pub short : length v.1 ≤ 65536

pub check_env_vars_iff : (env : List (Text × Text)) → (check_env_vars env ≡ []) ↔ All IsVariable env
unfolding check_env_vars
check_env_vars_iff [] = (λ _. tt, λ _. refl)
check_env_vars_iff ((key, value) ∷ env) = (
  λ e. ground (arith, check_env_vars_iff env, is_empty_iff key, contains_dotdot_iff key, e),
  λ p. ground (arith, check_env_vars_iff env, is_empty_iff key, contains_dotdot_iff key, p),
)

-- What a backend needs of its configuration.
abbrev pub IsConfigured : VfsBackendType → Option VfsDiskConfig → Option VfsS3Config → Type 0
IsConfigured memory d s = Unit
IsConfigured disk none s = ⊥
IsConfigured disk (some d) s = (d.base_path ≢ []) × NoDotDot d.base_path
IsConfigured s3 d none = ⊥
IsConfigured s3 d (some s) =
    (s.endpoint ≢ []) × (s.bucket ≢ []) × (s.access_key ≢ []) × (s.secret_key ≢ [])

pub check_backend_iff :
    (b : VfsBackendType) (d : Option VfsDiskConfig) (s : Option VfsS3Config)
    → (check_backend b d s ≡ []) ↔ IsConfigured b d s
unfolding check_backend
check_backend_iff memory d s = (λ _. tt, λ _. refl)
check_backend_iff disk none s = (λ e. cc, λ p. absurd p)
check_backend_iff disk (some d) s =
    ground (arith, is_empty_iff d.base_path, contains_dotdot_iff d.base_path)
check_backend_iff s3 d none = (λ e. cc, λ p. absurd p)
check_backend_iff s3 d (some s) = ground (
  arith,
  is_empty_iff s.endpoint,
  is_empty_iff s.bucket,
  is_empty_iff s.access_key,
  is_empty_iff s.secret_key,
)

pub check_count_iff : (n : ℕ) → (check_count n ≡ []) ↔ ((1 ≤ n) × (n ≤ 1000))
check_count_iff n = ground arith

pub under_app_iff : (i : ℕ) (h : Text) (es : List ConfigError) → (under_app i h es ≡ []) ↔ (es ≡ [])
under_app_iff i h [] = (λ e. refl, λ e. refl)
under_app_iff i h (x ∷ es) = (λ e. cc, λ e. cc)

is_seen_iff : (h : Text) (seen : List Text) → (is_seen h seen ≡ false) ↔ All (λ s. h ≢ s) seen
unfolding is_seen
is_seen_iff h [] = (λ _. tt, λ _. refl)
is_seen_iff h (s ∷ seen) = ground (arith, is_seen_iff h seen, str_eq_iff h s)

-- No element twice.
abbrev pub NoRepeat : List Text → Type 0
NoRepeat [] = Unit
NoRepeat (h ∷ hs) = All (λ s. h ≢ s) hs × NoRepeat hs

abbrev Unseen : List Text → List Text → Type 0
Unseen seen hs = All (λ h. is_seen h seen ≡ false) hs

other_iff : (h l : Text) → (str_eq h l ≡ false) ↔ (l ≢ h)
other_iff h l = (
  λ e p. ground (arith, str_eq_iff h l, e, sym p),
  λ n. ne_true (str_eq h l) (λ e. n (sym ((str_eq_iff h l).0 e))),
)

Unseen-cons :
    (l : Text) (seen hs : List Text) → Unseen (l ∷ seen) hs ↔ (All (λ s. l ≢ s) hs × Unseen seen hs)
unfolding is_seen
Unseen-cons l seen [] = (λ _. (tt, tt), λ _. tt)
Unseen-cons l seen (h ∷ hs) = ground (arith, other_iff h l, Unseen-cons l seen hs)

pub check_duplicates_iff :
    (seen hs : List Text)
    → (check_duplicates seen hs ≡ [])
      ↔ (Unseen seen (map to_lowercase hs) × NoRepeat (map to_lowercase hs))
unfolding check_duplicates
check_duplicates_iff seen [] = (λ _. (tt, tt), λ _. refl)
check_duplicates_iff seen (h ∷ hs) = elim (Bool-cases (is_seen (to_lowercase h) seen)) [
  | inl old ↦ rw old (λ e. cc, λ p. cc (p.0.0))
  | inr new ↦ rw new (
    λ e.
        let (a, b) = (check_duplicates_iff (to_lowercase h ∷ seen) hs).0 e in
        let (c, d) = split.0 a in ((refl, d), (c, b)),
    λ p. (check_duplicates_iff (to_lowercase h ∷ seen) hs).1 (split.1 (p.1.0, p.0.1), p.1.1),
  )
]
  where
    split :
        Unseen (to_lowercase h ∷ seen) (map to_lowercase hs)
        ↔ (All (λ s. to_lowercase h ≢ s) (map to_lowercase hs) × Unseen seen (map to_lowercase hs))
    split = Unseen-cons (to_lowercase h) seen (map to_lowercase hs)

pub Unseen-any : (hs : List Text) → Unseen [] hs
unfolding is_seen
Unseen-any [] = tt
Unseen-any (h ∷ hs) = (refl, Unseen-any hs)
