-- ===== src/Vfs/Memory/Race.antt =====
-- Two calls of `write` of src/vfs/memory.rs that interleave: each checks the quotas, and later stores
-- its file and updates the counters by what it saw at the check.
use nano_rs.Common.{
  ℕ, ◌+◌, ◌<◌, ◌≡◌, ◌≢◌, ne_true, Bool, true, false, not, List, Text, length, length-put, get, put,
  has_key, get-put, str_eq, str_eq_iff, str_eq_refl, arith,
}
use nano_rs.Vfs.Types.{VfsFile, VfsResult, ok, ◌>>=◌}
use nano_rs.Vfs.Memory.{
  MemoryBackend, old_len, check_write_bounds, written, count_after, total_after, store_file, write,
}
use nano_rs.Vfs.Memory.Invariant.{IsConsistent}

-- A write between its check and its store.
pub record PendingWrite : Type 0 where
  pub path : Text
  pub file : VfsFile
  pub is_new : Bool
  pub content_len : ℕ
  pub old_size : ℕ

unfoldable pub begin_write : ℕ → MemoryBackend → Text → List ℕ → VfsResult PendingWrite
begin_write now b path content = do
  _ ← check_write_bounds b (length content) (not (has_key path b.storage)) (old_len b path)
  ok (record {
    path = path;
    file = written now content (get path b.storage);
    is_new = not (has_key path b.storage);
    content_len = length content;
    old_size = old_len b path;
  })

unfoldable pub commit : PendingWrite → MemoryBackend → MemoryBackend
commit w b = record b {
  storage = put w.path w.file b.storage;
  file_count = count_after b w.is_new;
  total_bytes = total_after b w.content_len w.old_size;
}

-- A write that no other interrupts is its two steps in a row.
pub write-commit :
    (now : ℕ) (b : MemoryBackend) (path : Text) (content : List ℕ)
    → write now b path content ≡ (begin_write now b path content >>= λ w. ok (commit w b))
unfolding write begin_write commit store_file
write-commit now b path content = ground arith

begin_write-cases :
    (now : ℕ) (b : MemoryBackend) (path : Text) (content : List ℕ) (w : PendingWrite)
    → begin_write now b path content ≡ ok w
    → (w.path ≡ path)
      × (w.is_new ≡ not (has_key path b.storage))
      × (not (has_key path b.storage) ≡ true → b.file_count < b.limits.files_count_max)
unfolding begin_write check_write_bounds
begin_write-cases now b path content w e = ground (arith, e)

-- Two writes to one path that is not there yet, both checked before either is stored: the file is
-- there once and counted twice.
pub commit_twice :
    (now later : ℕ) (b : MemoryBackend) (path : Text) (content other : List ℕ) (w v : PendingWrite)
    → IsConsistent b
    → has_key path b.storage ≡ false
    → begin_write now b path content ≡ ok w
    → begin_write later b path other ≡ ok v
    → (length (commit v (commit w b)).storage ≡ b.file_count + 1)
      × ((commit v (commit w b)).file_count ≡ b.file_count + 2)
unfolding commit count_after
commit_twice now later b path content other w v c missing first second =
    let (p, n, room) = begin_write-cases now b path content w first in
    let (q, m, _) = begin_write-cases later b path other v second in
    ground (
      arith,
      c.words,
      c.counted,
      c.few,
      missing,
      p,
      q,
      n,
      m,
      room,
      length-put w.path w.file b.storage,
      length-put v.path v.file (put w.path w.file b.storage),
      get-put w.path v.path w.file b.storage,
      str_eq_refl path,
    )

-- Two writes to different paths that are not there yet, with room for one file, both checked before
-- either is stored: both are stored, and there is one file more than the quota allows.
pub commit_over :
    (now later : ℕ) (b : MemoryBackend) (path second_path : Text) (content other : List ℕ)
    (w v : PendingWrite)
    → IsConsistent b
    → path ≢ second_path
    → has_key path b.storage ≡ false
    → has_key second_path b.storage ≡ false
    → b.file_count + 1 ≡ b.limits.files_count_max
    → begin_write now b path content ≡ ok w
    → begin_write later b second_path other ≡ ok v
    → (length (commit v (commit w b)).storage ≡ b.limits.files_count_max + 1)
      × ((commit v (commit w b)).file_count ≡ b.limits.files_count_max + 1)
unfolding commit count_after
commit_over now later b path second_path content other w v c ne missing gone last first second =
    let (p, n, room) = begin_write-cases now b path content w first in
    let (q, m, _) = begin_write-cases later b second_path other v second in
    let apart : str_eq path second_path ≡ false =
      ne_true (str_eq path second_path) (λ e. ne ((str_eq_iff path second_path).0 e)) in
    ground (
      arith,
      c.words,
      c.counted,
      c.few,
      missing,
      gone,
      last,
      p,
      q,
      n,
      m,
      apart,
      length-put w.path w.file b.storage,
      length-put v.path v.file (put w.path w.file b.storage),
      get-put w.path v.path w.file b.storage,
    )
