-- ===== src/Vfs/Isolate/Isolation.antt =====
-- Isolates that share a backend.
use nano_rs.Common.{
  ℕ, ◌≡◌, refl, sym, ap, ◌∙◌, ◌≢◌, false, List, [], ◌∷◌, ◌++◌, Text, is_empty, str_eq, str_eq_iff,
  str_eq_refl, All, if◌then◌else◌, arith, ne_true,
}
use nano_rs.Vfs.Types.{VfsResult, ok, err, ◌>>=◌}
use nano_rs.Vfs.Path.{max_path_length, join_parts, too_long}
use nano_rs.Vfs.Path
use nano_rs.Vfs.Memory.{MemoryBackend}
use nano_rs.Vfs.Memory
use nano_rs.Vfs.Memory.Invariant.{IsConsistent}
use nano_rs.Vfs.Memory.Laws.{read-write, read-delete}
use nano_rs.Vfs.Isolate.Prefix.{IsPlain, >>=-eq-ok, prefix_namespace-eq-ok}
use nano_rs.Vfs.Isolate.{separator, prefix_namespace, from_hostname, read, write, delete}

-- The text before the first colon.
cut :
    (a b s t : Text)
    → All (λ c. c ≢ b':') a
    → All (λ c. c ≢ b':') b
    → a ++ (b':' ∷ s) ≡ b ++ (b':' ∷ t)
    → a ≡ b
cut [] [] s t h k e = refl
cut [] (d ∷ b) s t h k e = ground arith
cut (c ∷ a) [] s t h k e = ground arith
cut (c ∷ a) (d ∷ b) s t h k e = ground (arith, cut a b s t h.1 k.1)

storage_apart :
    (a b p q s t : Text)
    → IsPlain a
    → IsPlain b
    → a ≢ b
    → prefix_namespace a p ≡ ok s
    → prefix_namespace b q ≡ ok t
    → str_eq s t ≡ false
storage_apart a b p q s t pa pb ne e f =
    let (p', _, es) = prefix_namespace-eq-ok a p s pa e in
    let (q', _, et) = prefix_namespace-eq-ok b q t pb f in
    ne_true (str_eq s t) (λ h. ne (
      cut a b (b':' ∷ p') (b':' ∷ q') pa.colonless pb.colonless
        (sym es ∙ (str_eq_iff s t).0 h ∙ et)))

-- Two isolates with different plain namespaces over one backend: what the one writes leaves all
-- that the other reads.
pub read-write_apart :
    (now : ℕ) (a b p q : Text) (content : List ℕ) (m m' : MemoryBackend)
    → IsPlain a
    → IsPlain b
    → a ≢ b
    → write now (record { namespace = a; backend = m }) p content ≡ ok m'
    → read (record { namespace = b; backend = m' }) q
      ≡ read (record { namespace = b; backend = m }) q
unfolding read write
read-write_apart now a b p q content m m' pa pb ne e =
    let (s, named, written) = >>=-eq-ok (prefix_namespace a p) _ e in
    go s named written (prefix_namespace b q) refl
  where
    go :
        (s : Text)
        → prefix_namespace a p ≡ ok s
        → Memory.write now m s content ≡ ok m'
        → (r : VfsResult Text) → prefix_namespace b q ≡ r
        → (r >>= λ t. Memory.read m' t) ≡ (r >>= λ t. Memory.read m t)
    go s named written (err x) f = refl
    go s named written (ok t) f =
        rw (read-write now m m' s t content written, storage_apart a b p q s t pa pb ne named f)

-- So too for what the one deletes.
pub read-delete_apart :
    (a b p q : Text) (m m' : MemoryBackend)
    → IsConsistent m
    → IsPlain a
    → IsPlain b
    → a ≢ b
    → delete (record { namespace = a; backend = m }) p ≡ ok m'
    → read (record { namespace = b; backend = m' }) q
      ≡ read (record { namespace = b; backend = m }) q
unfolding read delete
read-delete_apart a b p q m m' v pa pb ne e =
    let (s, named, deleted) = >>=-eq-ok (prefix_namespace a p) _ e in
    go s named deleted (prefix_namespace b q) refl
  where
    go :
        (s : Text)
        → prefix_namespace a p ≡ ok s
        → Memory.delete m s ≡ ok m'
        → (r : VfsResult Text) → prefix_namespace b q ≡ r
        → (r >>= λ t. Memory.read m' t) ≡ (r >>= λ t. Memory.read m t)
    go s named deleted (err x) f = refl
    go s named deleted (ok t) f =
        rw (read-delete m m' s t v deleted, storage_apart a b p q s t pa pb ne named f)

-- What an isolate wrote, it reads back, under any spelling of the path with the same normal form.
pub read-write_same :
    (now : ℕ) (a p q n : Text) (content : List ℕ) (m m' : MemoryBackend)
    → Path.new p ≡ ok n
    → Path.new q ≡ ok n
    → write now (record { namespace = a; backend = m }) p content ≡ ok m'
    → read (record { namespace = a; backend = m' }) q ≡ ok content
unfolding read write prefix_namespace
read-write_same now a p q n content m m' ep eq e =
    let (s, named, written) = >>=-eq-ok (prefix_namespace a p) _ e in
    let named' : prefix_namespace a q ≡ ok s =
      ap (λ r. r >>= λ x. Path.new (if is_empty a then x else a ++ (separator ++ x))) (eq ∙ sym ep)
      ∙ named in
    ap (λ r. r >>= λ t. Memory.read m' t) named'
    ∙ read-write now m m' s s content written
    ∙ ap (λ c. if c then ok content else Memory.read m s) (str_eq_refl s)

from_hostname_collision :
    (h t : Text) → from_hostname (h ++ (b'.' ∷ t)) ≡ from_hostname (h ++ (b'-' ∷ t))
unfolding from_hostname
from_hostname_collision [] t = refl
from_hostname_collision (c ∷ h) t = cc (from_hostname_collision h t)

write-accepts :
    (now : ℕ) (ns p : Text) (content : List ℕ) (m m' : MemoryBackend)
    → write now (record { namespace = ns; backend = m }) p content ≡ ok m'
    → (n : Text) × (Path.new p ≡ ok n)
unfolding write prefix_namespace
write-accepts now ns p content m m' e =
    let (s, named, _) = >>=-eq-ok (prefix_namespace ns p) _ e in
    let (n, made, _) = >>=-eq-ok (Path.new p) _ named in (n, made)

-- Hostnames that differ only in a dot and a dash share their files: what the one writes to a
-- path, the other reads there.
pub hostname_collision :
    (now : ℕ) (h t p : Text) (content : List ℕ) (m m' : MemoryBackend)
    → write now (record { namespace = from_hostname (h ++ (b'.' ∷ t)); backend = m }) p content
      ≡ ok m'
    → read (record { namespace = from_hostname (h ++ (b'-' ∷ t)); backend = m' }) p ≡ ok content
hostname_collision now h t p content m m' e =
    let (n, made) = write-accepts now _ p content m m' e in
    rw (← from_hostname_collision h t) (read-write_same now _ p p n content m m' made made e)
