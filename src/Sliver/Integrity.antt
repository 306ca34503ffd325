-- ===== src/Sliver/Integrity.antt =====
-- `validate_sliver_integrity` of src/sliver/validation.rs.
pub mod Sound
pub mod Intact
use nano_rs.Common.{
  ℕ, ◌≡◌, Bool, true, false, ◌||◌, Option, none, some, List, [], ◌∷◌, ◌++◌, Text, bytes, str_eq,
  ◌==◌, if◌then◌else◌,
}

-- An entry of an archive: its path and its text where they can be read, and its size.
pub record Entry : Type 0 where
  pub path : Option Text
  pub size : ℕ
  pub text : Option Text

pub data CorruptionType : Type 0 where
  invalid_tar missing_metadata missing_heap invalid_metadata : CorruptionType
  empty_file : (entry : Text) → CorruptionType

-- A file: if it is there, its extension, and the entries of the archive in it. The file may not
-- open, no entries may be found in it, and single ones may not be read.
pub record SliverFile : Type 0 where
  pub exists : Bool
  pub extension : Option Text
  pub archive : Option (Option (List (Option Entry)))

pub data Verdict : Type 0 where
  accepted not_found cannot_open cannot_read : Verdict
  invalid_extension : (found : Option Text) → Verdict
  corrupted_archive : (reason : CorruptionType) → Verdict

abbrev pub metadata_filename : Text
metadata_filename = bytes "meta.json"

abbrev pub heap_filename : Text
heap_filename = bytes "heap.bin"

pub record Scan : Type 0 where
  pub found_metadata : Bool
  pub found_heap : Bool
  pub errors : List CorruptionType

unfoldable pub is_named : Text → Option Entry → Bool
unfolding str_eq
is_named name none = false
is_named name (some e) = elim e.path [ none ↦ false | some path ↦ str_eq path name ]

abbrev pub start : Scan
start = record { found_metadata = false; found_heap = false; errors = [] }

-- The errors with those of the required files.
unfoldable pub all_errors : Scan → List CorruptionType
all_errors s =
    (s.errors ++ (if s.found_metadata then [] else missing_metadata ∷ []))
    ++ (if s.found_heap then [] else missing_heap ∷ [])

abbrev pub first_error : List CorruptionType → Verdict
first_error [] = accepted
first_error (e ∷ es) = corrupted_archive e

abbrev pub is_sliver : Option Text → Bool
is_sliver none = false
is_sliver (some extension) = str_eq extension (bytes "sliver")

module _ (parses : Text → Bool) where
  unfoldable pub metadata_errors : Entry → List CorruptionType
  metadata_errors e = if e.size == 0 then empty_file metadata_filename ∷ [] else elim e.text [
    | none ↦ invalid_metadata ∷ []
    | some text ↦ if parses text then [] else invalid_metadata ∷ []
  ]

  -- The errors of an entry, by its name.
  unfoldable pub entry_errors : Option Entry → List CorruptionType
  unfolding metadata_errors str_eq
  entry_errors none = invalid_tar ∷ []
  entry_errors (some e) = elim e.path [
    | none ↦ invalid_tar ∷ []
    | some path ↦
        if str_eq path metadata_filename
        then metadata_errors e
        else if str_eq path heap_filename
        then (if e.size == 0 then empty_file heap_filename ∷ [] else [])
        else []
  ]

  -- The loop over the entries.
  unfoldable pub scan : List (Option Entry) → Scan → Scan
  unfolding entry_errors is_named
  scan [] s = s
  scan (e ∷ es) s = scan es (record {
    found_metadata = s.found_metadata || is_named metadata_filename e;
    found_heap = s.found_heap || is_named heap_filename e;
    errors = s.errors ++ entry_errors e;
  })

  unfoldable pub validate_sliver_integrity : SliverFile → Verdict
  unfolding scan all_errors str_eq
  validate_sliver_integrity file =
      if file.exists
      then (if is_sliver file.extension
          then elim file.archive [
            | none ↦ cannot_open
            | some none ↦ cannot_read
            | some (some entries) ↦ first_error (all_errors (scan entries start))
          ]
          else invalid_extension file.extension)
      else not_found
