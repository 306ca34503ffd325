-- ===== src/Vfs/Memory/Laws.antt =====
-- What a write and a deletion do, and when a write is refused.
use nano_rs.Common.{
  ℕ, ◌+◌, ◌≤◌, ◌<◌, ◌≡◌, ◌↔◌, false, List, some, Text, length, get, has_key, get-put, get-del_ne,
  get-del_self, str_eq, str_eq_iff, str_eq_refl, if◌then◌else◌, arith,
}
use nano_rs.Vfs.Types.{VfsFile, ok, err, not_found}
use nano_rs.Vfs.Memory.{
  MemoryBackend, old_len, store_file, written, read, metadata, write, delete, remove_file,
}
use nano_rs.Vfs.Memory.Invariant.{IsConsistent, write-Accepted, delete-cases, old_len-le}

content-written :
    (now : ℕ) (content : List ℕ) (b : MemoryBackend) (path : Text)
    → (written now content (get path b.storage)).content ≡ content
unfolding written
content-written now content b path = ground arith

-- After an accepted write the path reads as what was written, and every other path as before.
pub read-write :
    (now : ℕ) (b b' : MemoryBackend) (path j : Text) (content : List ℕ)
    → write now b path content ≡ ok b'
    → read b' j ≡ (if str_eq path j then ok content else read b j)
unfolding read
read-write now b b' path j content e =
    let a = write-Accepted now b b' path content e in
    let f = written now content (get path b.storage) in
    rw (a.storage, read)
      (ground (arith, get-put path j f b.storage, content-written now content b path))

-- A write keeps the time at which the file was made, notes the time of the change, and the size.
pub metadata-write :
    (now : ℕ) (b b' : MemoryBackend) (path : Text) (content : List ℕ) (old : VfsFile)
    → get path b.storage ≡ some old
    → write now b path content ≡ ok b'
    → metadata b' path
      ≡ ok (record {
        content = content;
        created_at = old.created_at;
        modified_at = now;
        size = length content;
      })
unfolding metadata written
metadata-write now b b' path content old found e =
    let a = write-Accepted now b b' path content e in
    rw (a.storage, metadata)
      (ground (
        arith,
        found,
        get-put path path (written now content (get path b.storage)) b.storage,
        str_eq_refl path,
      ))

-- A write is accepted exactly when the three quotas leave room for it, in numbers that do not
-- wrap around.
pub write_iff :
    (now : ℕ) (b : MemoryBackend) (path : Text) (content : List ℕ)
    → IsConsistent b
    → (write now b path content ≡ ok (store_file now b path content)) ↔ (
        (length content ≤ b.limits.file_size_bytes_max)
        × (has_key path b.storage ≡ false → b.file_count < b.limits.files_count_max)
        × (b.total_bytes + length content ≤ b.limits.total_storage_bytes_max + old_len b path))
write_iff now b path content v = (
  λ e.
      let a = write-Accepted now b _ path content e in
      (
        a.fits,
        a.room,
        omega (arith, a.within, a.fits, v.words, v.totalled, v.small, old_len-le b path),
      ),
  λ h.
      unfold write in
      ground (arith, h.0, h.1, h.2, v.words, v.totalled, v.small, old_len-le b path),
)

-- A deletion takes out that file alone; where there is none it fails and changes nothing.
pub read-delete :
    (b b' : MemoryBackend) (path j : Text)
    → IsConsistent b
    → delete b path ≡ ok b'
    → read b' j ≡ (if str_eq path j then err (not_found j) else read b j)
unfolding read remove_file
read-delete b b' path j v e =
    let (f, found, e') = delete-cases b b' path e in
    rw (e', read)
      (ground (
        arith,
        str_eq_iff path j,
        get-del_self path b.storage v.distinct,
        get-del_ne path j b.storage,
      ))
