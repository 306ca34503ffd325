-- ===== src/Vfs/Memory/Invariant.antt =====
-- The counters of the backend, its files and its quotas.
use nano_rs.Common.{
  ℕ, ◌+◌, ◌-◌, ◌%◌, ◌^◌, ◌≤◌, ◌<◌, ◌≡◌, refl, false, not, List, Option, none, some, Text, length,
  length-put, length-del, weight, weight-put, weight-del, get, put, del, has_key, Distinct,
  put-Distinct, del-Distinct, Entries, put-Entries, del-Entries, get-Entries, arith,
}
use nano_rs.Vfs.Types.{VfsFile, ResourceLimits, ok}
use nano_rs.Vfs.Memory.{
  MemoryBackend, old_len, new_total, store_file, with_limits, clear, written, count_after,
  total_after, write, delete, remove_file, word,
}

abbrev pub stored : VfsFile → ℕ
stored f = length f.content

-- The limits are 32-bit words.
pub record IsWord32 (l : ResourceLimits) : Type 0 where
  pub file_size : l.file_size_bytes_max < 2 ^ 32
  pub storage : l.total_storage_bytes_max < 2 ^ 32
  pub files : l.files_count_max < 2 ^ 32

abbrev pub IsSound : ResourceLimits → Text → VfsFile → Type 0
IsSound l path f = (f.size ≡ stored f) × (stored f ≤ l.file_size_bytes_max)

pub record IsConsistent (b : MemoryBackend) : Type 0 where
  pub words : IsWord32 b.limits
  pub distinct : Distinct b.storage
  pub counted : b.file_count ≡ length b.storage
  pub totalled : b.total_bytes ≡ weight stored b.storage
  pub sound : Entries (IsSound b.limits) b.storage
  pub few : b.file_count ≤ b.limits.files_count_max
  pub small : b.total_bytes ≤ b.limits.total_storage_bytes_max

pub with_limits-IsConsistent : (l : ResourceLimits) → IsWord32 l → IsConsistent (with_limits l)
unfolding with_limits
with_limits-IsConsistent l w = record {
  words = w;
  distinct = tt;
  counted = refl;
  totalled = refl;
  sound = tt;
  few = omega arith;
  small = omega arith;
}

pub clear-IsConsistent : (b : MemoryBackend) → IsConsistent b → IsConsistent (clear b)
unfolding clear
clear-IsConsistent b v = record {
  words = v.words;
  distinct = tt;
  counted = refl;
  totalled = refl;
  sound = tt;
  few = omega arith;
  small = omega arith;
}

-- What an accepted write has checked, and the new state.
pub record Accepted (now : ℕ) (b b' : MemoryBackend) (path : Text) (content : List ℕ) : Type 0 where
  pub fits : length content ≤ b.limits.file_size_bytes_max
  pub room : has_key path b.storage ≡ false → b.file_count < b.limits.files_count_max
  pub within : new_total b (length content) (old_len b path) ≤ b.limits.total_storage_bytes_max
  pub limits : b'.limits ≡ b.limits
  pub storage : b'.storage ≡ put path (written now content (get path b.storage)) b.storage
  pub count : b'.file_count ≡ count_after b (not (has_key path b.storage))
  pub total : b'.total_bytes ≡ total_after b (length content) (old_len b path)

pub write-Accepted :
    (now : ℕ) (b b' : MemoryBackend) (path : Text) (content : List ℕ)
    → write now b path content ≡ ok b'
    → Accepted now b b' path content
unfolding write store_file
write-Accepted now b b' path content e = ground arith

stored-written :
    (now : ℕ) (l : ResourceLimits) (content : List ℕ) (old : Option VfsFile) (path : Text)
    → length content ≤ l.file_size_bytes_max
    → (stored (written now content old) ≡ length content) × IsSound l path (written now content old)
unfolding written
stored-written now l content none path h = (refl, (refl, h))
stored-written now l content (some f) path h = (refl, (refl, h))

pub old_len-le : (b : MemoryBackend) (path : Text) → old_len b path ≤ weight stored b.storage
old_len-le b path = omega (arith, weight-del stored path b.storage)

total_after-weight :
    (now : ℕ) (b : MemoryBackend) (path : Text) (content : List ℕ)
    → IsConsistent b
    → length content ≤ b.limits.file_size_bytes_max
    → let f = written now content (get path b.storage) in
      (total_after b (length content) (old_len b path) ≡ weight stored (put path f b.storage))
      × (total_after b (length content) (old_len b path)
          ≡ new_total b (length content) (old_len b path))
unfolding total_after
total_after-weight now b path content v h =
    let f = written now content (get path b.storage) in
    ground (
      arith,
      v.words,
      v.totalled,
      v.small,
      old_len-le b path,
      weight-put stored path f b.storage,
      (stored-written now b.limits content (get path b.storage) path h).0,
    )

count_after-length :
    (b : MemoryBackend) (path : Text) (f : VfsFile)
    → IsConsistent b
    → (has_key path b.storage ≡ false → b.file_count < b.limits.files_count_max)
    → (count_after b (not (has_key path b.storage)) ≡ length (put path f b.storage))
      × (count_after b (not (has_key path b.storage)) ≤ b.limits.files_count_max)
unfolding count_after
count_after-length b path f v h =
    ground (arith, v.words, v.counted, v.few, length-put path f b.storage)

-- A write that is accepted keeps the counters exact and the quotas.
pub write-IsConsistent :
    (now : ℕ) (b b' : MemoryBackend) (path : Text) (content : List ℕ)
    → IsConsistent b
    → write now b path content ≡ ok b'
    → IsConsistent b'
write-IsConsistent now b b' path content v e =
    let a = write-Accepted now b b' path content e in
    let f = written now content (get path b.storage) in
    let (total, same) = total_after-weight now b path content v a.fits in
    let (count, few) = count_after-length b path f v a.room in
    let (_, sound) = stored-written now b.limits content (get path b.storage) path a.fits in
    record {
      words = rw a.limits v.words;
      distinct = rw a.storage (put-Distinct path f b.storage v.distinct);
      counted = rw (a.storage, a.count) count;
      totalled = rw (a.storage, a.total) total;
      sound =
          rw (a.storage, a.limits) (put-Entries (IsSound b.limits) path f b.storage v.sound sound);
      few = rw (a.count, a.limits) few;
      small = rw (a.total, same, a.limits) a.within;
    }

pub delete-cases :
    (b b' : MemoryBackend) (path : Text)
    → delete b path ≡ ok b'
    → (f : VfsFile) × (get path b.storage ≡ some f) × (b' ≡ remove_file b path f)
unfolding delete
delete-cases b b' path e = ground arith

remove_file-IsConsistent :
    (b : MemoryBackend) (path : Text) (f : VfsFile)
    → IsConsistent b
    → get path b.storage ≡ some f
    → IsConsistent (remove_file b path f)
unfolding remove_file
remove_file-IsConsistent b path f v found =
    let (size, _) = get-Entries (IsSound b.limits) path b.storage f v.sound found in
    let count : (b.file_count + word - 1) % word ≡ length (del path b.storage) =
      ground (arith, found, v.words, v.few, v.counted, length-del path b.storage) in
    let total : (b.total_bytes + word - f.size) % word ≡ weight stored (del path b.storage) =
      ground (arith, found, size, v.words, v.small, v.totalled, weight-del stored path b.storage) in
    record {
      words = v.words;
      distinct = del-Distinct path b.storage v.distinct;
      counted = count;
      totalled = total;
      sound = del-Entries (IsSound b.limits) path b.storage v.sound;
      few = ground (arith, found, count, v.counted, v.few, length-del path b.storage);
      small = ground (arith, found, total, v.totalled, v.small, weight-del stored path b.storage);
    }

-- So does a deletion.
pub delete-IsConsistent :
    (b b' : MemoryBackend) (path : Text) → IsConsistent b → delete b path ≡ ok b' → IsConsistent b'
delete-IsConsistent b b' path v e =
    let (f, found, e') = delete-cases b b' path e in
    rw e' (remove_file-IsConsistent b path f v found)
