-- ===== src/DataPlane.antt =====
-- The cache of code in src/data_plane.rs. A disk is what the file system shows at one moment; it may
-- change between the steps of a call.
pub mod Coherence
mod Tests
use nano_rs.Common.{
  ℕ, Option, none, some, List, [], ◌∷◌, Text, get, put, Bool, true, false, ◌==◌, if◌then◌else◌,
}

pub record Disk : Type 0 where
  pub read_to_string : Text → Option Text
  pub modified : Text → Option ℕ

pub record CodeCacheEntry : Type 0 where
  pub code : Text
  pub modified : ℕ

abbrev pub CodeCache : Type 0
CodeCache = Option (List (Text × CodeCacheEntry))

unfoldable pub init_code_cache : CodeCache → CodeCache
init_code_cache none = some []
init_code_cache (some cache) = some cache

-- The fast path: the code of an entry whose file has not changed.
unfoldable pub cached : Disk → CodeCache → Text → Option Text
cached disk none entrypoint = none
cached disk (some cache) entrypoint = elim (get entrypoint cache) [
  | none ↦ none
  | some entry ↦ elim (disk.modified entrypoint) [
    | none ↦ none
    | some modified ↦ if modified == entry.modified then some entry.code else none
  ]
]

unfoldable pub insert_code : Text → CodeCacheEntry → CodeCache → CodeCache
insert_code entrypoint entry none = some (put entrypoint entry [])
insert_code entrypoint entry (some cache) = some (put entrypoint entry cache)

abbrev pub modified_or : ℕ → Option ℕ → ℕ
modified_or now none = now
modified_or now (some t) = t

-- The slow path reads the code and then, on what may be another disk, the time of change; where
-- there is none it takes the clock's.
unfoldable pub read_and_cache : Disk → Disk → ℕ → CodeCache → Text → Option Text × CodeCache
read_and_cache reading after now cache entrypoint = elim (reading.read_to_string entrypoint) [
  | none ↦ (none, cache)
  | some code ↦
      let entry : CodeCacheEntry = record {
        code = code;
        modified = modified_or now (after.modified entrypoint);
      } in
      (some code, insert_code entrypoint entry cache)
]

-- `none` is the error of a file that cannot be read.
unfoldable pub read_code_cached :
    Disk → Disk → Disk → ℕ → CodeCache → Text → Option Text × CodeCache
read_code_cached checking reading after now cache entrypoint =
    elim (cached checking cache entrypoint) [
      | some code ↦ (some code, cache)
      | none ↦ read_and_cache reading after now cache entrypoint
    ]
