-- ===== src/Vfs/Memory.antt =====
-- `MemoryBackend` of src/vfs/memory.rs: the files by path, with the counters that the quotas read.
-- One caller at a time; the counters are 64-bit words.
pub mod Invariant
pub mod Laws
pub mod History
pub mod Snapshot
pub mod Race
pub mod Listing
use nano_rs.Common.{
  ℕ, ◌+◌, ◌-◌, ◌%◌, ◌^◌, Bool, true, false, not, Option, none, some, List, [], ◌∷◌, ◌++◌, Text,
  bytes, length, sum_of, get, put, del, has_key, weight_at, ltb, leb, str_eq, strip_prefix, ◌==◌,
  if◌then◌else◌,
}
use nano_rs.Vfs.Types.{
  VfsFile, VfsResult, ok, err, not_found, quota_exceeded, ResourceLimits, default_limits, ◌>>=◌,
}
use nano_rs.Vfs.Path

pub record MemoryBackend : Type 0 where
  pub storage : List (Text × VfsFile)
  pub limits : ResourceLimits
  pub total_bytes : ℕ
  pub file_count : ℕ

abbrev pub word : ℕ
word = 2 ^ 64

abbrev pub as_u32 : ℕ → ℕ
as_u32 n = n % 2 ^ 32

unfoldable pub with_limits : ResourceLimits → MemoryBackend
with_limits limits = record { storage = []; limits = limits; total_bytes = 0; file_count = 0 }

unfoldable pub new : MemoryBackend
unfolding with_limits
new = with_limits default_limits

unfoldable pub clear : MemoryBackend → MemoryBackend
clear b = record b { storage = []; total_bytes = 0; file_count = 0 }

unfoldable pub len : MemoryBackend → ℕ
len b = length b.storage

unfoldable pub current_usage : MemoryBackend → ℕ × ℕ
current_usage b = (b.file_count, b.total_bytes)

abbrev pub file_size : Text
file_size = bytes "file_size"

abbrev pub files : Text
files = bytes "file_count"

abbrev pub total_storage : Text
total_storage = bytes "total_storage"

-- `(current_total + size_delta) as usize`, where the difference is taken in 64 bits.
abbrev pub new_total : MemoryBackend → ℕ → ℕ → ℕ
new_total b content_len old_size = (b.total_bytes + word + content_len - old_size) % word

unfoldable pub check_write_bounds : MemoryBackend → ℕ → Bool → ℕ → VfsResult (Unit {0})
check_write_bounds b content_len is_new old_size =
    if ltb b.limits.file_size_bytes_max content_len
    then err (quota_exceeded file_size b.limits.file_size_bytes_max (as_u32 content_len))
    else if (if is_new then leb b.limits.files_count_max b.file_count else false)
    then err (quota_exceeded files b.limits.files_count_max (as_u32 b.file_count))
    else if ltb b.limits.total_storage_bytes_max (new_total b content_len old_size)
    then err (quota_exceeded total_storage b.limits.total_storage_bytes_max (as_u32 b.total_bytes))
    else ok tt

unfoldable pub read : MemoryBackend → Text → VfsResult (List ℕ)
read b path = elim (get path b.storage) [
  | some entry ↦ ok entry.content
  | none ↦ err (not_found path)
]

unfoldable pub metadata : MemoryBackend → Text → VfsResult VfsFile
metadata b path = elim (get path b.storage) [ some entry ↦ ok entry | none ↦ err (not_found path) ]

unfoldable pub exists : MemoryBackend → Text → VfsResult Bool
exists b path = ok (has_key path b.storage)

-- The file that a write puts in place: a file that is there keeps its time of creation.
unfoldable pub written : ℕ → List ℕ → Option VfsFile → VfsFile
written now content none = record {
  content = content;
  created_at = now;
  modified_at = now;
  size = length content;
}
written now content (some existing) = record {
  content = content;
  created_at = existing.created_at;
  modified_at = now;
  size = length content;
}

-- The counters after a write: `fetch_add` and `fetch_sub` wrap around.
unfoldable pub count_after : MemoryBackend → Bool → ℕ
count_after b is_new = if is_new then (b.file_count + 1) % word else b.file_count

unfoldable pub total_after : MemoryBackend → ℕ → ℕ → ℕ
total_after b content_len old_size =
    if ltb old_size content_len
    then (b.total_bytes + (content_len - old_size)) % word
    else if ltb content_len old_size
    then (b.total_bytes + word - (old_size - content_len)) % word
    else b.total_bytes

abbrev pub old_len : MemoryBackend → Text → ℕ
old_len b path = weight_at (λ f. length f.content) path b.storage

-- Putting a file in, with the counters.
unfoldable pub store_file : ℕ → MemoryBackend → Text → List ℕ → MemoryBackend
store_file now b path content = record b {
  storage = put path (written now content (get path b.storage)) b.storage;
  file_count = count_after b (not (has_key path b.storage));
  total_bytes = total_after b (length content) (old_len b path);
}

unfoldable pub write : ℕ → MemoryBackend → Text → List ℕ → VfsResult MemoryBackend
unfolding check_write_bounds
write now b path content = do
  _ ← check_write_bounds b (length content) (not (has_key path b.storage)) (old_len b path)
  ok (store_file now b path content)

-- Taking a file out, with the counters: `fetch_sub` of the size that the file notes.
unfoldable pub remove_file : MemoryBackend → Text → VfsFile → MemoryBackend
remove_file b path file = record b {
  storage = del path b.storage;
  file_count = (b.file_count + word - 1) % word;
  total_bytes = (b.total_bytes + word - file.size) % word;
}

unfoldable pub delete : MemoryBackend → Text → VfsResult MemoryBackend
delete b path = elim (get path b.storage) [
  | some file ↦ ok (remove_file b path file)
  | none ↦ err (not_found path)
]

-- The files whose key is a path.
pub valid_entries : List (Text × VfsFile) → List (Text × VfsFile)
valid_entries [] = []
valid_entries ((key, file) ∷ m) =
    let rest = valid_entries m in
    elim (Path.new key) [ ok path ↦ (path, file) ∷ rest | err _ ↦ rest ]

unfoldable pub snapshot_entries : MemoryBackend → List (Text × VfsFile)
unfolding valid_entries
snapshot_entries b = valid_entries b.storage

pub insert_all : List (Text × VfsFile) → List (Text × VfsFile) → List (Text × VfsFile)
insert_all [] m = m
insert_all ((path, file) ∷ es) m = insert_all es (put path file m)

-- Neither the quotas nor double paths are looked at.
unfoldable pub restore_from_snapshot : MemoryBackend → List (Text × VfsFile) → MemoryBackend
unfolding clear insert_all
restore_from_snapshot b entries = record (clear b) {
  storage = insert_all entries (clear b).storage;
  file_count = length entries;
  total_bytes = sum_of (λ e. length e.1.content) entries % word;
}

-- What stands before the first slash, or all of it; nothing where the rest of the key is empty.
pub child_of : Text → Option Text
child_of [] = none
child_of (c ∷ s) = some (Path.split_parts (c ∷ s)).0

pub add_child : Text → List Text → List Text
add_child name [] = name ∷ []
add_child name (n ∷ ns) = if str_eq n name then n ∷ ns else n ∷ add_child name ns

-- The set of the children of a directory, in some order.
pub children : Text → List (Text × VfsFile) → List Text
children prefix [] = []
children prefix ((key, _) ∷ m) =
    let rest = children prefix m in
    elim (strip_prefix prefix key) [
      | none ↦ rest
      | some remaining ↦ elim (child_of remaining) [
        | none ↦ rest
        | some child ↦ add_child child rest
      ]
    ]

pub ends_with_slash : Text → Bool
ends_with_slash [] = false
ends_with_slash (c ∷ []) = c == b'/'
ends_with_slash (c ∷ d ∷ s) = ends_with_slash (d ∷ s)

pub with_slash : Text → Text
with_slash prefix = if ends_with_slash prefix then prefix else prefix ++ (b'/' ∷ [])

-- `none` is the panic of an `unwrap`.
pub child_paths : Text → List Text → Option (List Text)
child_paths prefix [] = some []
child_paths prefix (name ∷ names) =
    let rest = child_paths prefix names in
    elim (Path.new (prefix ++ name)) [
      | err _ ↦ none
      | ok path ↦ elim rest [ none ↦ none | some paths ↦ some (path ∷ paths) ]
    ]

unfoldable pub list_dir : MemoryBackend → Text → Option (List Text)
unfolding strip_prefix child_of add_child children ends_with_slash with_slash child_paths
list_dir b path = child_paths (with_slash path) (children (with_slash path) b.storage)
