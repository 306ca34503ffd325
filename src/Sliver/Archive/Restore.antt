-- ===== src/Sliver/Archive/Restore.antt =====
-- The files of a sliver in the file system of an isolate: `restore_to_vfs` of
-- src/sliver/unpacker.rs over src/vfs/isolate.rs and src/vfs/memory.rs.
use nano_rs.Common.{
  ℕ, ◌≡◌, refl, sym, ap, ◌∙◌, ◌≢◌, false, List, [], ◌∷◌, ◌++◌, Text, str_eq, str_eq_iff, All,
  ne_true,
}
use nano_rs.Vfs.Types.{VfsFile, VfsResult, ok, err, ◌>>=◌}
use nano_rs.Vfs.Path.Laws.{IsNormal, new_of_IsNormal}
use nano_rs.Vfs.Memory.{MemoryBackend}
use nano_rs.Vfs.Memory
use nano_rs.Vfs.Memory.Laws.{read-write}
use nano_rs.Vfs.Isolate.{separator, prefix_namespace, read, write}
use nano_rs.Vfs.Isolate.Prefix.{IsPlain, >>=-eq-ok, prefix_namespace-eq-ok}
use nano_rs.Vfs.Isolate.Isolation.{read-write_same}
use nano_rs.Sliver.Archive.{done, restore_to_vfs}

-- Paths in normal form, each of them once.
abbrev pub AreApart : List (Text × VfsFile) → Type 0
AreApart [] = Unit
AreApart ((path, _) ∷ entries) =
    IsNormal path × All (λ other. other.0 ≢ path) entries × AreApart entries

drop_prefix : (a p q : Text) → a ++ p ≡ a ++ q → p ≡ q
drop_prefix [] p q e = e
drop_prefix (c ∷ a) p q e = drop_prefix a p q (cc e)

abbrev pub Reads : Text → MemoryBackend → Text × VfsFile → Type 0
Reads ns b (path, file) = read (record { namespace = ns; backend = b }) path ≡ ok file.content

module _ (ns : Text) (plain : IsPlain ns) where
  storage_of : (p s : Text) → IsNormal p → prefix_namespace ns p ≡ ok s → s ≡ ns ++ (separator ++ p)
  storage_of p s n e =
      let (p', made, es) = prefix_namespace-eq-ok ns p s plain e in
      let same : p' ≡ p = cc (sym made ∙ new_of_IsNormal p n) in
      es ∙ ap (λ x. ns ++ (separator ++ x)) same

  -- A write to one path leaves the others.
  read-write_other :
      (now : ℕ) (p q : Text) (content : List ℕ) (m m' : MemoryBackend)
      → IsNormal p
      → IsNormal q
      → q ≢ p
      → write now (record { namespace = ns; backend = m }) p content ≡ ok m'
      → read (record { namespace = ns; backend = m' }) q
        ≡ read (record { namespace = ns; backend = m }) q
  unfolding read write
  read-write_other now p q content m m' np nq ne e =
      let (s, named, written) = >>=-eq-ok (prefix_namespace ns p) _ e in
      go s named written (prefix_namespace ns q) refl
    where
      go :
          (s : Text)
          → prefix_namespace ns p ≡ ok s
          → Memory.write now m s content ≡ ok m'
          → (r : VfsResult Text) → prefix_namespace ns q ≡ r
          → (r >>= λ t. Memory.read m' t) ≡ (r >>= λ t. Memory.read m t)
      go s named written (err x) f = refl
      go s named written (ok t) f =
          let apart : str_eq s t ≡ false = ne_true (str_eq s t) (λ h. ne (
            drop_prefix separator q p (
              drop_prefix ns _ _ (
                sym (storage_of q t nq f)
                ∙ sym ((str_eq_iff s t).0 h)
                ∙ storage_of p s np named)))) in
          rw (read-write now m m' s t content written, apart) refl

  restore-cons :
      (now : ℕ) (path : Text) (file : VfsFile) (entries : List (Text × VfsFile))
      (m b : MemoryBackend)
      → restore_to_vfs now ((path, file) ∷ entries) (record { namespace = ns; backend = m })
        ≡ done b
      → (m1 : MemoryBackend) × (write now (record { namespace = ns; backend = m }) path file.content
          ≡ ok m1)
        × (restore_to_vfs now entries (record { namespace = ns; backend = m1 }) ≡ done b)
  unfolding restore_to_vfs
  restore-cons now path file entries m b e =
      split (write now (record { namespace = ns; backend = m }) path file.content) refl
    where
      split :
          (r : VfsResult MemoryBackend)
          → write now (record { namespace = ns; backend = m }) path file.content ≡ r
          → (m1 : MemoryBackend) × (write now
                (record { namespace = ns; backend = m })
                path
                file.content
              ≡ ok m1)
            × (restore_to_vfs now entries (record { namespace = ns; backend = m1 }) ≡ done b)
      split (err why) f = absurd (cc (rw (restore_to_vfs, f) at e))
      split (ok m1) f = (m1, f, rw (restore_to_vfs, f) at e)

  restored_other :
      (now : ℕ) (entries : List (Text × VfsFile)) (q : Text) (m b : MemoryBackend)
      → AreApart entries
      → IsNormal q
      → All (λ other. other.0 ≢ q) entries
      → restore_to_vfs now entries (record { namespace = ns; backend = m }) ≡ done b
      → read (record { namespace = ns; backend = b }) q
        ≡ read (record { namespace = ns; backend = m }) q
  unfolding restore_to_vfs
  restored_other now [] q m b a n others e =
      let same : m ≡ b = cc e in
      ap (λ x. read (record { namespace = ns; backend = x }) q) (sym same)
  restored_other now ((path, file) ∷ entries) q m b (np, _, a) n (ne, others) e =
      let (m1, written, rest) = restore-cons now path file entries m b e in
      restored_other now entries q m1 b a n others rest
      ∙ read-write_other now path q file.content m m1 np n (λ h. ne (sym h)) written

  -- When the files of a sliver are restored into an isolate with a plain namespace, and their
  -- paths are distinct and in normal form, the isolate then reads each of them with its content.
  pub restore_to_vfs-Reads :
      (now : ℕ) (entries : List (Text × VfsFile)) (m b : MemoryBackend)
      → AreApart entries
      → restore_to_vfs now entries (record { namespace = ns; backend = m }) ≡ done b
      → All (Reads ns b) entries
  restore_to_vfs-Reads now [] m b a e = tt
  restore_to_vfs-Reads now ((path, file) ∷ entries) m b (n, others, a) e =
      let (m1, written, rest) = restore-cons now path file entries m b e in
      let made = new_of_IsNormal path n in
      (
        restored_other now entries path m1 b a n others rest
            ∙ read-write_same now ns path path path file.content m m1 made made written,
        restore_to_vfs-Reads now entries m1 b a rest,
      )
