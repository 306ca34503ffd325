-- ===== src/Http/Serve/Confined.antt =====
-- The files of the disk that a route of a directory reads.
use nano_rs.Common.{
  ◌≡◌, refl, ◌⊎◌, inl, inr, Option, some, ◌∷◌, ◌++◌, Text, arith, Bool-cases, Option-cases,
}
use nano_rs.Config.Hostname.{contains_dotdot}
use nano_rs.Config.Checks.Clean.{NoDotDot, contains_dotdot_iff}
use nano_rs.Http.Serve.{Outside, is_root, strip_slash, dir_path, serve_dir}

-- A path below a root: the default file of the root, or one without two dots in a row.
pub record IsBelow (root default_file file : Text) : Type 0 where
  pub rest : Text
  pub joined : file ≡ root ++ (b'/' ∷ rest)
  pub confined : (rest ≡ default_file) ⊎ NoDotDot rest

dir_path-IsBelow :
    (root default_file path file : Text)
    → dir_path root default_file path ≡ some file
    → IsBelow root default_file file
unfolding dir_path
dir_path-IsBelow root default_file path file e = elim (Bool-cases (is_root path)) [
  | inl at_root ↦ record {
    rest = default_file;
    joined = ground (arith, rw (dir_path, at_root) at e);
    confined = inl refl;
  }
  | inr below ↦ elim (Bool-cases (contains_dotdot (strip_slash path))) [
    | inl dots ↦ cc (rw (dir_path, below, dots) at e)
    | inr flat ↦ record {
      rest = strip_slash path;
      joined = ground (arith, rw (dir_path, below, flat) at e);
      confined = inr ((contains_dotdot_iff (strip_slash path)).0 flat);
    }
  ]
]

-- Two disks that agree on the default file and on all files below the root without two dots in a
-- row give the same answer to every request: a request reaches nothing else.
pub serve_dir-IsBelow :
    (a : Outside) (other : Text → Option Text) (root default_file path : Text)
    → ((file : Text) → IsBelow root default_file file → a.read file ≡ other file)
    → serve_dir a root default_file path
      ≡ serve_dir (record a { read = other }) root default_file path
unfolding serve_dir
serve_dir-IsBelow a other root default_file path same =
    elim (Option-cases (dir_path root default_file path)) [
      | inl blocked ↦ rw (serve_dir, blocked) refl
      | inr (file, named) ↦
          rw (serve_dir, named, same file (dir_path-IsBelow root default_file path file named)) refl
    ]
