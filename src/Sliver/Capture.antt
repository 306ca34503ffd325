-- ===== src/Sliver/Capture.antt =====
-- The capture of the files of an isolate for a sliver: src/sliver/vfs_capture.rs, over the in-memory
-- backend. The recursion over directories takes fuel.
use nano_rs.Common.{
  ℕ, zero, suc, ◌+◌, ◌%◌, ◌^◌, ◌≡◌, refl, ◌∙◌, Option, none, some, List, [], ◌∷◌, Text, bytes,
  length, contains, put, str_eq,
}
use nano_rs.Vfs.Types.{VfsFile, new_file, VfsError, VfsResult, ok, err}
use nano_rs.Vfs.Path
use nano_rs.Vfs.Isolate.{IsolateVfs, prefix_namespace}
use nano_rs.Vfs.Isolate

pub record VfsCapture : Type 0 where
  pub files : List (Text × VfsFile)
  pub file_count : ℕ
  pub total_bytes : ℕ

abbrev pub new_capture : VfsCapture
new_capture = record { files = []; file_count = 0; total_bytes = 0 }

unfoldable pub add_file : Text → VfsFile → VfsCapture → VfsCapture
unfolding put
add_file path file c = record {
  files = put path file c.files;
  file_count = (c.file_count + 1) % 2 ^ 64;
  total_bytes = (c.total_bytes + length file.content) % 2 ^ 64;
}

-- How a capture ends; `panicked` is an `unwrap` in a listing.
pub data Captured : Type 0 where
  captured : VfsCapture → Captured
  refused : VfsError → Captured
  panicked out_of_fuel : Captured

abbrev and_then : Captured → (VfsCapture → Captured) → Captured
and_then (captured c) next = next c
and_then (refused why) next = refused why
and_then panicked next = panicked
and_then out_of_fuel next = out_of_fuel

-- A step for each entry, until one fails.
abbrev pub each : (Text → VfsCapture → Captured) → List Text → VfsCapture → Captured
each step [] c = captured c
each step (entry ∷ entries) c = and_then (step entry c) (each step entries)

each-same :
    (step : Text → VfsCapture → Captured) (entries : List Text) (c c' : VfsCapture)
    → ((path : Text) (c c' : VfsCapture) → step path c ≡ captured c' → c' ≡ c)
    → each step entries c ≡ captured c'
    → c' ≡ c
each-same step [] c c' h e = cc e
each-same step (entry ∷ entries) c c' h e =
    go (step entry c) refl e (λ c1 e1. each-same step entries c1 c' h e1)
  where
    go :
        (r : Captured)
        → step entry c ≡ r
        → and_then r (each step entries) ≡ captured c'
        → ((c1 : VfsCapture) → each step entries c1 ≡ captured c' → c' ≡ c1)
        → c' ≡ c
    go (captured c1) f e later = later c1 e ∙ h entry c c1 f
    go (refused why) f e later = absurd (cc e)
    go panicked f e later = absurd (cc e)
    go out_of_fuel f e later = absurd (cc e)

module _ (now : ℕ) (vfs : IsolateVfs) where
  -- What is no directory, is read as a file; what cannot be read, is left out.
  unfoldable pub capture_file : Text → VfsCapture → Captured
  unfolding add_file Isolate.read Path.new new_file
  capture_file path c = elim (Isolate.read vfs path) [
    | err _ ↦ captured c
    | ok content ↦ elim (Path.new path) [
      | err why ↦ refused why
      | ok path ↦ captured (add_file path (new_file now content) c)
    ]
  ]

  unfoldable pub capture_all_files_recursive : ℕ → Text → VfsCapture → Captured
  unfolding capture_file Isolate.list_dir
  capture_all_files_recursive zero path c = out_of_fuel
  capture_all_files_recursive (suc fuel) path c = elim (Isolate.list_dir vfs path) [
    | err _ ↦ capture_file path c
    | ok none ↦ panicked
    | ok (some entries) ↦ each (capture_all_files_recursive fuel) entries c
  ]

  unfoldable pub capture_vfs : ℕ → Captured
  unfolding capture_all_files_recursive
  capture_vfs fuel = capture_all_files_recursive fuel (bytes "/") new_capture

  -- A path that cannot be listed cannot be read either.
  unlisted-unread :
      (path : Text) (why : VfsError) (c : VfsCapture)
      → Isolate.list_dir vfs path ≡ err why
      → capture_file path c ≡ captured c
  unfolding capture_file Isolate.list_dir Isolate.read
  unlisted-unread path why c e = go (prefix_namespace vfs.namespace path) refl
    where
      go :
          (r : VfsResult Text)
          → prefix_namespace vfs.namespace path ≡ r
          → capture_file path c ≡ captured c
      go (err x) f = rw (capture_file, Isolate.read, f) refl
      go (ok s) f = absurd (cc (rw (Isolate.list_dir, f) at e))

  capture-same :
      (fuel : ℕ) (path : Text) (c c' : VfsCapture)
      → capture_all_files_recursive fuel path c ≡ captured c'
      → c' ≡ c
  unfolding capture_all_files_recursive
  capture-same zero path c c' e = absurd (cc e)
  capture-same (suc fuel) path c c' e =
      go (λ path c c' h. capture-same fuel path c c' h) (Isolate.list_dir vfs path) refl
    where
      go :
          ((path : Text) (c c' : VfsCapture)
            → capture_all_files_recursive fuel path c ≡ captured c'
            → c' ≡ c)
          → (r : VfsResult (Option (List Text))) → Isolate.list_dir vfs path ≡ r
          → c' ≡ c
      go later (err why) f =
          cc (rw (capture_all_files_recursive, f) at e, unlisted-unread path why c f)
      go later (ok none) f = absurd (cc (rw (capture_all_files_recursive, f) at e))
      go later (ok (some entries)) f =
          each-same (capture_all_files_recursive fuel) entries c c' later
            (rw (capture_all_files_recursive, f) at e)

  -- From whatever path it starts, a capture that ends adds no file, since a listing in memory
  -- never fails and a path that cannot be listed cannot be read; and the capture of an isolate
  -- ends at once with no file, whatever its files are, since it starts at a path that is refused.
  pub capture_vfs-nothing :
      (fuel : ℕ) (path : Text) (c c' : VfsCapture)
      → capture_all_files_recursive fuel path c ≡ captured c'
      → (c' ≡ c) × (capture_vfs (suc fuel) ≡ captured new_capture)
  unfolding capture_vfs capture_all_files_recursive capture_file Isolate.list_dir Isolate.read
      prefix_namespace Path.new Path.normalize Path.split Path.split_parts Path.join_parts
      Path.any_dotdot Path.trim_start Path.trim_end contains str_eq
  capture_vfs-nothing fuel path c c' e = (capture-same fuel path c c' e, refl)
