-- ===== src/Vfs/Tests.antt =====
-- The theorems on the file system at concrete paths and backends, and runs of it.
mod Isolates
use nano_rs.Common.{
  ℕ, ◌+◌, ◌≤◌, ◌<◌, ◌≡◌, refl, ◌≢◌, ◌↔◌, true, false, some, List, [], ◌∷◌, ◌++◌, Text, bytes,
  length, get, has_key, str_eq, str_eq_iff, contains, arith, if◌then◌else◌,
}
use nano_rs.Vfs.Types.{◌>>=◌, ok, err, not_found, invalid_path, VfsFile, test_limits}
use nano_rs.Vfs.Path.{
  split, join_parts, normalize, any_dotdot, trim_start, trim_end, split_parts, parent_segment,
  parent, file_name, join, nonempty,
}
use nano_rs.Vfs.Path
use nano_rs.Vfs.Path.Laws.{IsNormal, names_in, new-IsNormal}
use nano_rs.Vfs.Path.Accept.{IsAccepted, new_iff}
use nano_rs.Vfs.Path.Join.{join-parent}
use nano_rs.Vfs.Memory.{
  MemoryBackend, with_limits, old_len, store_file, remove_file, restore_from_snapshot,
  snapshot_entries, current_usage, check_write_bounds, written,
}
use nano_rs.Vfs.Memory
use nano_rs.Vfs.Memory.Invariant.{IsConsistent, IsWord32}
use nano_rs.Vfs.Memory.Listing.{IsChild, is_listed, list_dir_iff}
use nano_rs.Vfs.Memory.Laws.{read-write, read-delete, metadata-write, write_iff}
use nano_rs.Vfs.Memory.History.{writes, deletes, clears, run, run-with_limits}
use nano_rs.Vfs.Memory.Race.{
  PendingWrite, begin_write, commit, write-commit, commit_twice, commit_over,
}
use nano_rs.Vfs.Memory.Snapshot.{restore-snapshot}

abbrev home : Text
home = bytes "a/b"

abbrev readme : Text
readme = bytes "readme.md"

abbrev spelled : Text
spelled = bytes "/a//b/"

spelled-new : Path.new spelled ≡ ok home
unfolding Path.new normalize split split_parts join_parts any_dotdot trim_start trim_end contains
    str_eq
spelled-new = refl

home-new : Path.new home ≡ ok home
unfolding Path.new normalize split split_parts join_parts any_dotdot trim_start trim_end contains
    str_eq
home-new = refl

-- A path that leaves its root is refused.
escape-new : Path.new (bytes "a/../b") ≡ err (invalid_path (bytes "a/../b") parent_segment)
unfolding Path.new normalize split split_parts join_parts any_dotdot trim_start trim_end contains
    str_eq
escape-new = refl

new-IsNormal_example : IsNormal home
new-IsNormal_example = new-IsNormal spelled home spelled-new

abbrev file : VfsFile
file = record { content = 1 ∷ 2 ∷ 3 ∷ []; created_at = 4; modified_at = 4; size = 3 }

abbrev one : MemoryBackend
one = record { storage = (home, file) ∷ []; limits = test_limits; total_bytes = 3; file_count = 1 }

abbrev empty : MemoryBackend
empty = record { storage = []; limits = test_limits; total_bytes = 0; file_count = 0 }

test_limits-IsWord32 : IsWord32 test_limits
test_limits-IsWord32 = record {
  file_size = omega arith;
  storage = omega arith;
  files = omega arith;
}

one-IsConsistent : IsConsistent one
unfolding get
one-IsConsistent = record {
  words = test_limits-IsWord32;
  distinct = (refl, tt);
  counted = refl;
  totalled = refl;
  sound = ((refl, omega arith), tt);
  few = omega arith;
  small = omega arith;
}

abbrev text : List ℕ
text = 7 ∷ 8 ∷ []

run-with_limits_example : IsConsistent (
    run
      (with_limits test_limits)
      (writes 1 home text ∷ deletes readme ∷ writes 2 home [] ∷ clears ∷ []))
run-with_limits_example =
    run-with_limits test_limits
      (writes 1 home text ∷ deletes readme ∷ writes 2 home [] ∷ clears ∷ []) test_limits-IsWord32

one-write : Memory.write 9 one home text ≡ ok (store_file 9 one home text)
unfolding Memory.write get str_eq
one-write = refl

write_iff_example : (Memory.write 9 one readme text ≡ ok (store_file 9 one readme text)) ↔ (
    (length text ≤ 100)
    × (has_key readme one.storage ≡ false → 1 < 5)
    × (3 + length text ≤ 500 + old_len one readme))
write_iff_example = write_iff 9 one readme text one-IsConsistent

one-delete : Memory.delete one home ≡ ok (remove_file one home file)
unfolding Memory.delete get str_eq
one-delete = refl

restore-snapshot_example :
    let r = restore_from_snapshot empty (snapshot_entries one) in
    (Memory.metadata r home ≡ Memory.metadata one home) × (current_usage r ≡ current_usage one)
restore-snapshot_example =
    restore-snapshot one empty home one-IsConsistent (new-IsNormal home home home-new, tt)

abbrev pending : Text → List ℕ → PendingWrite
pending path content = record {
  path = path;
  file = record { content = content; created_at = 9; modified_at = 9; size = length content };
  is_new = true;
  content_len = length content;
  old_size = 0;
}

begin-readme : begin_write 9 one readme text ≡ ok (pending readme text)
unfolding begin_write check_write_bounds written get str_eq
begin-readme = refl

begin-notes : begin_write 9 one (bytes "notes") text ≡ ok (pending (bytes "notes") text)
unfolding begin_write check_write_bounds written get str_eq
begin-notes = refl

-- Two files are the most.
abbrev tight : MemoryBackend
tight = record one { limits = record test_limits { files_count_max = 2 } }

tight-IsConsistent : IsConsistent tight
unfolding get
tight-IsConsistent = record {
  words = record { file_size = omega arith; storage = omega arith; files = omega arith };
  distinct = (refl, tt);
  counted = refl;
  totalled = refl;
  sound = ((refl, omega arith), tt);
  few = omega arith;
  small = omega arith;
}

abbrev directory : Text
directory = bytes "a"

directory-new : Path.new directory ≡ ok directory
unfolding Path.new normalize split split_parts join_parts any_dotdot trim_start trim_end contains
    str_eq
directory-new = refl

list_dir_iff_example :
    (paths : List Text) × (Memory.list_dir one directory ≡ some paths)
    × ((is_listed home paths ≡ true) ↔ IsChild one directory home)
list_dir_iff_example =
    list_dir_iff one directory home (new-IsNormal directory directory directory-new)
      (new-IsNormal home home home-new, tt)
