-- ===== src/Sliver/Tests.antt =====
-- The checks of slivers and the suggestion of names at concrete values.
use nano_rs.Common.{
  ◌≡◌, ◌↔◌, true, str_eq, contains, strip_prefix, refl, none, some, List, [], ◌∷◌, Text, bytes,
}
use nano_rs.Vfs.Types.{test_limits}
use nano_rs.Vfs.Path
use nano_rs.Vfs.Memory
use nano_rs.Vfs.Isolate.{IsolateVfs, prefix_namespace}
use nano_rs.Vfs.Isolate
use nano_rs.Sliver.Capture.{
  captured, new_capture, capture_all_files_recursive, capture_vfs, capture_vfs-nothing,
}
use nano_rs.Sliver.Integrity.{SliverFile, accepted, validate_sliver_integrity}
use nano_rs.Sliver.Integrity.Intact.{IsIntact, validate_sliver_integrity_iff}
use nano_rs.Sliver.Suggest.{levenshtein_distance, utf8_len, byte_len, find_similar_internal}
use nano_rs.Sliver.Suggest.Edits.{IsLeast}
use nano_rs.Sliver.Suggest.Table.{levenshtein_distance-IsLeast}

levenshtein_distance-IsLeast_example :
    IsLeast (levenshtein_distance (bytes "cart") (bytes "chat")) (bytes "cart") (bytes "chat")
levenshtein_distance-IsLeast_example = levenshtein_distance-IsLeast (bytes "cart") (bytes "chat")

two_edits : levenshtein_distance (bytes "cart") (bytes "chat") ≡ 2
unfolding levenshtein_distance
two_edits = refl

abbrev names : List Text
names = bytes "shop" ∷ bytes "carts" ∷ bytes "card" ∷ []

-- A word of an n and an e with an accent has two characters and three bytes.
accented : byte_len (110 ∷ 233 ∷ []) ≡ 3
unfolding byte_len utf8_len
accented = refl

first_of_the_nearest : find_similar_internal (bytes "cart") names 3 ≡ some (bytes "carts")
unfolding find_similar_internal
first_of_the_nearest = refl

abbrev sound_file : SliverFile
sound_file = record {
  exists = true;
  extension = some (bytes "sliver");
  archive = some (
      some (
        some (record { path = some (bytes "meta.json"); size = 2; text = some (bytes "{}") })
        ∷ some (record { path = some (bytes "heap.bin"); size = 9; text = none })
        ∷ []));
}

validate_sliver_integrity_iff_example :
    (validate_sliver_integrity (str_eq (bytes "{}")) sound_file ≡ accepted)
    ↔ IsIntact (str_eq (bytes "{}")) sound_file
validate_sliver_integrity_iff_example =
    validate_sliver_integrity_iff (str_eq (bytes "{}")) sound_file

sound_accepted : validate_sliver_integrity (str_eq (bytes "{}")) sound_file ≡ accepted
unfolding validate_sliver_integrity str_eq
sound_accepted = refl

-- An isolate with a file, of which nothing is captured.
abbrev stored_vfs : IsolateVfs
stored_vfs = record {
  namespace = bytes "app";
  backend = record {
    storage =
        (bytes "app::a", record { content = 1 ∷ []; created_at = 4; modified_at = 4; size = 1 })
        ∷ [];
    limits = test_limits;
    total_bytes = 1;
    file_count = 1;
  };
}

capture_file_a :
    capture_all_files_recursive 9 stored_vfs 1 (bytes "a") new_capture ≡ captured new_capture
unfolding capture_all_files_recursive Isolate.list_dir prefix_namespace Memory.list_dir Path.new
    Path.normalize Path.split Path.split_parts Path.join_parts Path.any_dotdot Path.trim_start
    Path.trim_end contains str_eq strip_prefix
capture_file_a = refl

capture_vfs-nothing_example :
    (new_capture ≡ new_capture) × (capture_vfs 9 stored_vfs 2 ≡ captured new_capture)
capture_vfs-nothing_example =
    capture_vfs-nothing 9 stored_vfs 1 (bytes "a") new_capture new_capture capture_file_a
