-- ===== src/Vfs/Memory/Listing/Children.antt =====
-- The children of a directory in the listing of src/vfs/memory.rs.
use nano_rs.Common.{
  ◌≡◌, inl, inr, refl, ap, ◌∙◌, Bool, true, false, Option, none, some, List, [], ◌∷◌, Text, get,
  has_key, str_eq, str_eq_iff, strip_prefix, All, Bool-cases, if◌then◌else◌, arith,
}
use nano_rs.Vfs.Types.{VfsFile}
use nano_rs.Vfs.Path.{split_parts}
use nano_rs.Vfs.Path.Laws.{IsName}
use nano_rs.Vfs.Memory.{child_of, add_child, children}

-- Whether a text is in a list.
abbrev pub is_listed : Text → List Text → Bool
is_listed q [] = false
is_listed q (p ∷ ps) = if str_eq p q then true else is_listed q ps

pub listed-add_child_self :
    (name : Text) (ns : List Text) → is_listed name (add_child name ns) ≡ true
unfolding add_child
listed-add_child_self name [] = ground (arith, str_eq_iff name name)
listed-add_child_self name (n ∷ ns) =
    ground (arith, listed-add_child_self name ns, str_eq_iff n name)

listed-add_child :
    (x name : Text) (ns : List Text)
    → is_listed x ns ≡ true
    → is_listed x (add_child name ns) ≡ true
unfolding add_child
listed-add_child x name [] h = absurd (cc h)
listed-add_child x name (n ∷ ns) h = ground (arith, listed-add_child x name ns, h)

All-add_child :
    (P : Text → Type 0) (name : Text) (ns : List Text)
    → P name
    → All P ns
    → All P (add_child name ns)
unfolding add_child
All-add_child P name [] h hs = (h, tt)
All-add_child P name (n ∷ ns) h hs = ground (arith, All-add_child P name ns h hs.1, hs)

-- The entry of a directory under which a key stands.
pub child_of-some : (r : Text) → IsName (split_parts r).0 → child_of r ≡ some (split_parts r).0
unfolding child_of split_parts
child_of-some [] h = absurd (h.0 refl)
child_of-some (c ∷ s) h = refl

-- One more key: the children are the same, or there is one more.
data Step (prefix key : Text) (rest : List Text) : List Text → Type 0 where
  skipped : Step prefix key rest rest
  added :
      (remaining child : Text)
      → strip_prefix prefix key ≡ some remaining
      → child_of remaining ≡ some child
      → Step prefix key rest (add_child child rest)

children-Step :
    (prefix key : Text) (file : VfsFile) (m : List (Text × VfsFile))
    → Step prefix key (children prefix m) (children prefix ((key, file) ∷ m))
unfolding children
children-Step prefix key file m = go (strip_prefix prefix key) refl
  where
    go_child :
        (remaining : Text)
        → strip_prefix prefix key ≡ some remaining
        → (r : Option Text) → child_of remaining ≡ r
        → Step prefix key (children prefix m) (children prefix ((key, file) ∷ m))
    go_child remaining e none f = rw (children, e, f) skipped
    go_child remaining e (some child) f = rw (children, e, f) (added remaining child e f)

    go :
        (r : Option Text)
        → strip_prefix prefix key ≡ r
        → Step prefix key (children prefix m) (children prefix ((key, file) ∷ m))
    go none e = rw (children, e) skipped
    go (some remaining) e = go_child remaining e (child_of remaining) refl

listed-Step :
    {prefix key : Text} {rest names : List Text} (x : Text)
    → Step prefix key rest names
    → is_listed x rest ≡ true
    → is_listed x names ≡ true
listed-Step x skipped h = h
listed-Step {rest = rest} x (added _ child _ _) h = listed-add_child x child rest h

pub children-listed :
    (prefix key remaining child : Text) (m : List (Text × VfsFile))
    → has_key key m ≡ true
    → strip_prefix prefix key ≡ some remaining
    → child_of remaining ≡ some child
    → is_listed child (children prefix m) ≡ true
unfolding children get
children-listed prefix key remaining child [] h e f = absurd (cc h)
children-listed prefix key remaining child ((j, file) ∷ m) h e f =
    elim (Bool-cases (str_eq j key)) [
      | inl same ↦
          let e' : strip_prefix prefix j ≡ some remaining =
            ap (strip_prefix prefix) ((str_eq_iff j key).0 same) ∙ e in
          rw (children, e', f) (listed-add_child_self child (children prefix m))
      | inr other ↦
          listed-Step child (children-Step prefix j file m)
            (children-listed prefix key remaining child m (rw (has_key, get, other) at h) e f)
    ]

-- Each child has a key under which it was found.
abbrev pub IsFound : Text → List (Text × VfsFile) → Text → Type 0
IsFound prefix m child =
    (key remaining : Text) × (has_key key m ≡ true)
    × (strip_prefix prefix key ≡ some remaining)
    × (child_of remaining ≡ some child)

has_key-later :
    (key j : Text) (file : VfsFile) (m : List (Text × VfsFile))
    → has_key key m ≡ true
    → has_key key ((j, file) ∷ m) ≡ true
unfolding get
has_key-later key j file m h = elim (Bool-cases (str_eq j key)) [
  | inl e ↦ rw (has_key, get, e) refl
  | inr e ↦ rw (has_key, get, e) h
]

has_key-first :
    (j : Text) (file : VfsFile) (m : List (Text × VfsFile)) → has_key j ((j, file) ∷ m) ≡ true
unfolding get
has_key-first j file m = rw (has_key, get, (str_eq_iff j j).1 refl) refl

All-later :
    (prefix j : Text) (file : VfsFile) (m : List (Text × VfsFile)) (ns : List Text)
    → All (IsFound prefix m) ns
    → All (IsFound prefix ((j, file) ∷ m)) ns
All-later prefix j file m [] h = tt
All-later prefix j file m (n ∷ ns) ((key, remaining, there, e, f), hs) =
    ((key, remaining, has_key-later key j file m there, e, f), All-later prefix j file m ns hs)

found_step :
    (prefix j : Text) (file : VfsFile) (m : List (Text × VfsFile)) (names : List Text)
    → Step prefix j (children prefix m) names
    → All (IsFound prefix m) (children prefix m)
    → All (IsFound prefix ((j, file) ∷ m)) names
found_step prefix j file m names skipped h = All-later prefix j file m _ h
found_step prefix j file m names (added remaining child e f) h =
    All-add_child (IsFound prefix ((j, file) ∷ m)) child (children prefix m)
      (j, remaining, has_key-first j file m, e, f) (All-later prefix j file m (children prefix m) h)

pub children-IsFound :
    (prefix : Text) (m : List (Text × VfsFile)) → All (IsFound prefix m) (children prefix m)
unfolding children
children-IsFound prefix [] = tt
children-IsFound prefix ((j, file) ∷ m) =
    found_step prefix j file m _ (children-Step prefix j file m) (children-IsFound prefix m)
