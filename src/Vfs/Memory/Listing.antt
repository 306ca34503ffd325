-- ===== src/Vfs/Memory/Listing.antt =====
-- What `list_dir` of src/vfs/memory.rs gives.
mod Parts
mod Children
use mathlib.Core.List.{append_assoc}
use nano_rs.Common.{
  ℕ, ◌+◌, ◌≤◌, ◌≡◌, ◌≢◌, ◌⊎◌, ◌↔◌, inl, inr, refl, sym, ap, subst, ◌∙◌, Bool, true, false, Option,
  none, some, List, [], ◌∷◌, ◌++◌, map, Text, length, length-append, get, has_key, str_eq,
  str_eq_iff, strip_prefix, All, All-append, Bool-cases, ◌==◌, if◌then◌else◌, arith,
}
use nano_rs.Vfs.Types.{VfsFile, VfsResult, ok, err}
use nano_rs.Vfs.Path.{split, split_parts, max_path_length, join_parts}
use nano_rs.Vfs.Path
use nano_rs.Vfs.Path.Split.{NoSlash, split-NoSlash, split_parts-slash, split_parts_of_NoSlash}
use nano_rs.Vfs.Path.Laws.{
  IsName, NoNull, IsNormal, new_of_IsNormal, split-join_parts_ne, IsName-NoSlash,
}
use nano_rs.Vfs.Path.Join.{joined-IsNormal}
use nano_rs.Vfs.Memory.{
  MemoryBackend, child_of, add_child, children, ends_with_slash, with_slash, child_paths, list_dir,
}
pub use nano_rs.Vfs.Memory.Listing.Children.{is_listed}
use nano_rs.Vfs.Memory.Listing.Children.{child_of-some, children-listed, IsFound, children-IsFound}
use nano_rs.Vfs.Memory.Listing.Parts.{
  tail_parts, strip_prefix-append, append-strip_prefix, first_part, ends_with_slash-true,
  normal_parts, parts_behind, with_slash-normal,
}

-- A path that stands for an entry of a directory: a key is this path, or lies below it.
abbrev pub IsChild : MemoryBackend → Text → Text → Type 0
IsChild b path q =
    (name key : Text) × (has_key key b.storage ≡ true)
    × (q ≡ path ++ (b'/' ∷ name))
    × IsName name
    × ((key ≡ q) ⊎ ((below : Text) × (key ≡ q ++ (b'/' ∷ below))))

-- Where all entries make paths, the paths are these.
child_paths-map :
    (prefix : Text) (names : List Text)
    → All (λ n. Path.new (prefix ++ n) ≡ ok (prefix ++ n)) names
    → child_paths prefix names ≡ some (map (λ n. prefix ++ n) names)
unfolding child_paths
child_paths-map prefix [] h = refl
child_paths-map prefix (n ∷ names) h = rw (child_paths, h.0, child_paths-map prefix names h.1) refl

All-front : (P : ℕ → Type 0) (xs ys : Text) → All P (xs ++ ys) → All P xs
All-front P [] ys h = tt
All-front P (x ∷ xs) ys h = (h.0, All-front P xs ys h.1)

All-back : (P : ℕ → Type 0) (xs ys : Text) → All P (xs ++ ys) → All P ys
All-back P [] ys h = h
All-back P (x ∷ xs) ys h = All-back P xs ys h.1

-- Keys that are all in normal form.
abbrev pub AreNormal : List (Text × VfsFile) → Type 0
AreNormal = All (λ entry. IsNormal entry.0)

has_key-IsNormal :
    (key : Text) (m : List (Text × VfsFile)) → AreNormal m → has_key key m ≡ true → IsNormal key
unfolding get
has_key-IsNormal key [] n h = absurd (cc h)
has_key-IsNormal key ((j, file) ∷ m) n h = elim (Bool-cases (str_eq j key)) [
  | inl e ↦ subst IsNormal ((str_eq_iff j key).0 e) n.0
  | inr e ↦ has_key-IsNormal key m n.1 (rw (has_key, get, e) at h)
]

-- A part of a path in normal form, up to the end or to a slash, is in normal form.
cut-IsNormal :
    (path name key : Text)
    → IsNormal path
    → IsName name
    → IsNormal key
    → ((key ≡ path ++ (b'/' ∷ name))
        ⊎ ((below : Text) × (key ≡ (path ++ (b'/' ∷ name)) ++ (b'/' ∷ below))))
    → IsNormal (path ++ (b'/' ∷ name))
cut-IsNormal path name key n h k (inl e) = subst IsNormal e k
cut-IsNormal path name key n h k (inr (below, e)) =
    let whole = path ++ (b'/' ∷ name) in
    let clean : NoNull whole =
      All-front (λ c. c ≢ 0) whole (b'/' ∷ below) (subst NoNull e k.clean) in
    let short : length whole + length (b'/' ∷ below) ≤ max_path_length =
      subst (λ l. l ≤ max_path_length) (ap length e ∙ length-append whole (b'/' ∷ below)) k.short in
    joined-IsNormal path name n h (All-back (λ c. c ≢ 0) path (b'/' ∷ name) clean).1
      (omega (arith, short))

-- The key of a name, and of what lies below it.
abbrev Under : Text → Text → Text → Type 0
Under path name key =
    (key ≡ path ++ (b'/' ∷ name))
    ⊎ ((below : Text) × (key ≡ (path ++ (b'/' ∷ name)) ++ (b'/' ∷ below)))

slashed : (path s : Text) → (path ++ (b'/' ∷ [])) ++ s ≡ path ++ (b'/' ∷ s)
slashed path s = append_assoc path (b'/' ∷ []) s

remaining-Under :
    (path remaining key : Text)
    → key ≡ path ++ (b'/' ∷ remaining)
    → Under path (split_parts remaining).0 key
remaining-Under path remaining key e = elim (first_part remaining) [
  | inl whole ↦ inl (e ∙ ap (λ t. path ++ (b'/' ∷ t)) whole)
  | inr (below, front) ↦ inr (
    below,
    e
        ∙ ap (λ t. path ++ (b'/' ∷ t)) front
        ∙ sym (append_assoc path (b'/' ∷ (split_parts remaining).0) (b'/' ∷ below)),
  )
]

found-Under :
    (path child : Text) (m : List (Text × VfsFile))
    → AreNormal m
    → IsFound (path ++ (b'/' ∷ [])) m child
    → (key : Text) × (has_key key m ≡ true) × IsNormal key × IsName child × Under path child key
unfolding split
found-Under path child m n (key, remaining, there, e, f) =
    let whole : key ≡ path ++ (b'/' ∷ remaining) =
      append-strip_prefix (path ++ (b'/' ∷ [])) key remaining e ∙ slashed path remaining in
    let k = has_key-IsNormal key m n there in
    let name = (parts_behind path remaining (subst IsNormal whole k)).0 in
    let same : (split_parts remaining).0 ≡ child = cc (sym (child_of-some remaining name) ∙ f) in
    (
      key,
      there,
      k,
      subst IsName same name,
      subst (λ t. Under path t key) same (remaining-Under path remaining key whole),
    )

Under-child_of :
    (path name key : Text)
    → IsName name
    → Under path name key
    → (remaining : Text) × (strip_prefix (path ++ (b'/' ∷ [])) key ≡ some remaining)
      × (child_of remaining ≡ some name)
Under-child_of path name key h (inl e) =
    let first = (split_parts_of_NoSlash name h.2).0 in
    (
      name,
      ap (strip_prefix (path ++ (b'/' ∷ []))) (e ∙ sym (slashed path name))
          ∙ strip_prefix-append (path ++ (b'/' ∷ [])) name,
      child_of-some name (subst IsName (sym first) h) ∙ ap some first,
    )
Under-child_of path name key h (inr (below, e)) =
    let remaining = name ++ (b'/' ∷ below) in
    let first = (split_parts-slash name below h.2).0 in
    (
      remaining,
      ap (strip_prefix (path ++ (b'/' ∷ [])))
            (e ∙ append_assoc path (b'/' ∷ name) (b'/' ∷ below) ∙ sym (slashed path remaining))
          ∙ strip_prefix-append (path ++ (b'/' ∷ [])) remaining,
      child_of-some remaining (subst IsName (sym first) h) ∙ ap some first,
    )

listed-map :
    (f : Text → Text) (x : Text) (ns : List Text)
    → is_listed x ns ≡ true
    → is_listed (f x) (map f ns) ≡ true
listed-map f x [] h = absurd (cc h)
listed-map f x (n ∷ ns) h = elim (Bool-cases (str_eq n x)) [
  | inl e ↦ rw ((str_eq_iff (f n) (f x)).1 (ap f ((str_eq_iff n x).0 e))) refl
  | inr e ↦ elim (Bool-cases (str_eq (f n) (f x))) [
    | inl same ↦ rw (same) refl
    | inr other ↦ rw (other) (listed-map f x ns (rw (e) at h))
  ]
]

All-image :
    (f : Text → Text) (P Q : Text → Type 0) (ns : List Text)
    → ((n : Text) → P n → Q (f n))
    → All P ns
    → All Q (map f ns)
All-image f P Q [] g h = tt
All-image f P Q (n ∷ ns) g h = (g n h.0, All-image f P Q ns g h.1)

All-implies :
    (P Q : Text → Type 0) (ns : List Text) → ((n : Text) → P n → Q n) → All P ns → All Q ns
All-implies P Q [] g h = tt
All-implies P Q (n ∷ ns) g h = (g n h.0, All-implies P Q ns g h.1)

All-listed :
    (P : Text → Type 0) (x : Text) (ns : List Text) → All P ns → is_listed x ns ≡ true → P x
All-listed P x [] h e = absurd (cc e)
All-listed P x (n ∷ ns) h e = elim (Bool-cases (str_eq n x)) [
  | inl same ↦ subst P ((str_eq_iff n x).0 same) h.0
  | inr other ↦ All-listed P x ns h.1 (rw (other) at e)
]

-- The listing of a path in normal form, over files under paths in normal form, succeeds, and has
-- exactly the paths that are the directory's and one name, under which there is a file, or a
-- directory with a file in it.
pub list_dir_iff :
    (b : MemoryBackend) (path q : Text)
    → IsNormal path
    → AreNormal b.storage
    → (paths : List Text) × (list_dir b path ≡ some paths)
      × ((is_listed q paths ≡ true) ↔ IsChild b path q)
unfolding list_dir
list_dir_iff b path q n keys =
    let prefix = path ++ (b'/' ∷ []) in
    let names = children prefix b.storage in
    let found = children-IsFound prefix b.storage in
    let paths = map (λ name. prefix ++ name) names in
    (
      paths,
      rw (list_dir, with_slash-normal path n)
          (child_paths-map prefix names (
            All-implies (IsFound prefix b.storage)
              (λ name. Path.new (prefix ++ name) ≡ ok (prefix ++ name)) names
              (λ name x. made name (found-Under path name b.storage keys x)) found)),
      (
        All-listed (IsChild b path) q paths (
            All-image (λ name. prefix ++ name) (IsFound prefix b.storage) (IsChild b path) names
              (λ name x. child name (found-Under path name b.storage keys x)) found),
        λ (name, key, there, e, h, u).
            let (remaining, e1, f) =
              Under-child_of path name key h
                (subst (λ t. (key ≡ t) ⊎ ((below : Text) × (key ≡ t ++ (b'/' ∷ below)))) e u) in
            subst (λ t. is_listed t paths ≡ true) (slashed path name ∙ sym e)
              (listed-map (λ name. prefix ++ name) name names
                (children-listed prefix key remaining name b.storage there e1 f)),
      ),
    )
  where
    made :
        (name : Text)
        → (key : Text) × (has_key key b.storage ≡ true)
          × IsNormal key
          × IsName name
          × Under path name key
        → Path.new ((path ++ (b'/' ∷ [])) ++ name) ≡ ok ((path ++ (b'/' ∷ [])) ++ name)
    made name (key, there, k, h, u) =
        new_of_IsNormal _
          (subst IsNormal (sym (slashed path name)) (cut-IsNormal path name key n h k u))

    child :
        (name : Text)
        → (key : Text) × (has_key key b.storage ≡ true)
          × IsNormal key
          × IsName name
          × Under path name key
        → IsChild b path ((path ++ (b'/' ∷ [])) ++ name)
    child name (key, there, k, h, u) =
        subst (IsChild b path) (sym (slashed path name)) (name, key, there, refl, h, u)
