-- ===== src/Esm/Rooted.antt =====
-- The paths that `resolve_import_path` of src/v8/module.rs gives.
use mathlib.Core.List.{reverse, reverse_aux}
use mathlib.Core.List.{append_assoc}
use nano_rs.Common.{
  ℕ, ◌≡◌, ◌≢◌, refl, sym, ap, subst, ◌∙◌, Bool, true, false, Option, none, some, List, [], ◌∷◌,
  ◌++◌, Text, bytes, str_eq, str_eq_iff, keep, All, All-append, if◌then◌else◌, arith,
}
use nano_rs.Vfs.Path.{split, join_parts}
use nano_rs.Vfs.Path.Split.{NoSlash, split-NoSlash}
use nano_rs.Vfs.Isolate.{IsolateVfs}
use nano_rs.Esm.{
  stay, up, down, move_of, walk, is_component, base_dir, base_components, with_extension,
  starts_with, resolved, resolve_import_path,
}
use nano_rs.Esm.Bounds.{Walk, ended, stayed, left, refused, entered, walk-Walk}

-- A name in a path: not empty, neither one dot nor two, and without a slash.
abbrev pub IsPart : Text → Type 0
IsPart part = (part ≢ []) × (part ≢ bytes ".") × (part ≢ bytes "..") × NoSlash part

-- A path from the root: a slash, and names joined by single slashes.
pub record IsRooted (path : Text) : Type 0 where
  pub parts : List Text
  pub all_parts : All IsPart parts
  pub joined : path ≡ b'/' ∷ join_parts parts

-- What a walk leaves.
abbrev AllParts : Option (List Text) → Type 0
AllParts none = Unit
AllParts (some stack) = All IsPart stack

part_moves :
    (c : Text)
    → (c ≡ [] → move_of c ≡ stay)
      × (c ≡ bytes "." → move_of c ≡ stay)
      × (c ≡ bytes ".." → move_of c ≡ up)
unfolding move_of str_eq
part_moves c = ((λ e. ap move_of e), (λ e. ap move_of e), (λ e. ap move_of e))

entered-IsPart : (c : Text) → move_of c ≡ down → NoSlash c → IsPart c
unfolding move_of
entered-IsPart c f plain =
    let named = part_moves c in
    (
      (λ e. absurd (cc (f, named.0 e))),
      (λ e. absurd (cc (f, named.1 e))),
      (λ e. absurd (cc (f, named.2 e))),
      plain,
    )

walk_parts :
    {parts stack : List Text} {r : Option (List Text)}
    → Walk parts stack r
    → All NoSlash parts
    → All IsPart stack
    → AllParts r
walk_parts ended plain v = v
walk_parts (stayed f w) plain v = walk_parts w plain.1 v
walk_parts (left f w) plain v = walk_parts w plain.1 v.1
walk_parts (refused f) plain v = tt
walk_parts (entered {c = c} f w) plain v = walk_parts w plain.1 (entered-IsPart c f plain.0, v)

-- The last name with an ending.
abbrev with_ending : Text → List Text → List Text
with_ending ending [] = ending ∷ []
with_ending ending (p ∷ []) = (p ++ ending) ∷ []
with_ending ending (p ∷ q ∷ ps) = p ∷ with_ending ending (q ∷ ps)

with_ending-ne-nil : (ending : Text) (ps : List Text) → with_ending ending ps ≢ []
with_ending-ne-nil ending [] = λ e. cc e
with_ending-ne-nil ending (p ∷ []) = λ e. cc e
with_ending-ne-nil ending (p ∷ q ∷ ps) = λ e. cc e

join_parts-cons :
    (p : Text) (ps : List Text) → ps ≢ [] → join_parts (p ∷ ps) ≡ p ++ (b'/' ∷ join_parts ps)
unfolding join_parts
join_parts-cons p [] h = absurd (h refl)
join_parts-cons p (q ∷ ps) h = refl

join_parts-with_ending :
    (ending : Text) (ps : List Text) → join_parts (with_ending ending ps) ≡ join_parts ps ++ ending
unfolding join_parts
join_parts-with_ending ending [] = refl
join_parts-with_ending ending (p ∷ []) = refl
join_parts-with_ending ending (p ∷ q ∷ ps) =
    join_parts-cons p (with_ending ending (q ∷ ps)) (with_ending-ne-nil ending (q ∷ ps))
    ∙ ap (λ l. p ++ (b'/' ∷ l)) (join_parts-with_ending ending (q ∷ ps))
    ∙ sym (append_assoc p (b'/' ∷ join_parts (q ∷ ps)) ending)

-- A name with an ending: a dot, a byte that is none, and more.
append-ne-nil : (p : Text) (d : ℕ) (s : Text) → p ++ (d ∷ s) ≢ []
append-ne-nil [] d s e = cc e
append-ne-nil (x ∷ p) d s e = cc e

append-ne-one : (p : Text) (d c : ℕ) (s : Text) (x : ℕ) → p ++ (d ∷ c ∷ s) ≢ x ∷ []
append-ne-one [] d c s x e = cc e
append-ne-one (z ∷ p) d c s x e = append-ne-nil p d (c ∷ s) (cc e)

append-ne-two : (p : Text) (d c : ℕ) (s : Text) (x y : ℕ) → c ≢ y → p ++ (d ∷ c ∷ s) ≢ x ∷ y ∷ []
append-ne-two [] d c s x y ne e = ne (cc e)
append-ne-two (z ∷ p) d c s x y ne e = append-ne-one p d c s y (cc e)

IsPart-dot :
    (p : Text) (c : ℕ) (rest : Text)
    → c ≢ b'.'
    → NoSlash (c ∷ rest)
    → NoSlash p
    → IsPart (p ++ (b'.' ∷ c ∷ rest))
IsPart-dot p c rest ne plain h = (
  append-ne-nil p b'.' (c ∷ rest),
  append-ne-one p b'.' c rest b'.',
  append-ne-two p b'.' c rest b'.' b'.' ne,
  All-append (λ d. d ≢ b'/') p (b'.' ∷ c ∷ rest) h ((λ e. cc e), plain),
)

with_ending-IsPart :
    (c : ℕ) (rest : Text) (ps : List Text)
    → c ≢ b'.'
    → NoSlash (c ∷ rest)
    → All IsPart ps
    → All IsPart (with_ending (b'.' ∷ c ∷ rest) ps)
with_ending-IsPart c rest [] ne plain h = (IsPart-dot [] c rest ne plain tt, tt)
with_ending-IsPart c rest (p ∷ []) ne plain h = (IsPart-dot p c rest ne plain h.0.3, tt)
with_ending-IsPart c rest (p ∷ q ∷ ps) ne plain h =
    (h.0, with_ending-IsPart c rest (q ∷ ps) ne plain h.1)

reverse-IsPart :
    (xs ys : List Text) → All IsPart xs → All IsPart ys → All IsPart (reverse_aux xs ys)
reverse-IsPart [] ys hx hy = hy
reverse-IsPart (x ∷ xs) ys hx hy = reverse-IsPart xs (x ∷ ys) hx.1 (hx.0, hy)

base_parts :
    (cs : List Text)
    → All NoSlash cs
    → All (λ c. c ≢ bytes "..") cs
    → All IsPart (keep is_component cs)
unfolding is_component
base_parts [] plain v = tt
base_parts (c ∷ cs) plain v = ground (arith, base_parts cs plain.1 v.1, str_eq_iff c (bytes "."))

if-IsRooted : (b : Bool) (s t : Text) → IsRooted s → IsRooted t → IsRooted (if b then s else t)
if-IsRooted true s t hs ht = hs
if-IsRooted false s t hs ht = ht

with_extension-IsRooted :
    (vfs : IsolateVfs) (ps : List Text)
    → All IsPart ps
    → IsRooted (with_extension vfs (b'/' ∷ join_parts ps))
unfolding with_extension
with_extension-IsRooted vfs ps h =
    let plain : IsRooted (b'/' ∷ join_parts ps) = record {
      parts = ps;
      all_parts = h;
      joined = refl;
    } in
    let ended_by : (c : ℕ) (rest : Text)
        → c ≢ b'.'
        → NoSlash (c ∷ rest)
        → IsRooted ((b'/' ∷ join_parts ps) ++ (b'.' ∷ c ∷ rest)) =
      λ c rest ne v. record {
        parts = with_ending (b'.' ∷ c ∷ rest) ps;
        all_parts = with_ending-IsPart c rest ps ne v h;
        joined = ap (λ l. b'/' ∷ l) (sym (join_parts-with_ending (b'.' ∷ c ∷ rest) ps));
      } in
    if-IsRooted _ _ _ plain (
      if-IsRooted _ _ _ (ended_by b'j' (bytes "s") (λ e. cc e) (omega arith))
        (if-IsRooted _ _ _ (ended_by b'm' (bytes "js") (λ e. cc e) (omega arith)) plain))

-- What a relative import resolves to, is a path from the root made of names, of which none is
-- ".", ".." or empty, if no directory of the base path is named "..".
pub resolve_import_path-IsRooted :
    (vfs : IsolateVfs) (base_path specifier path : Text)
    → starts_with (bytes "/") specifier ≡ false
    → All (λ c. c ≢ bytes "..") (split (base_dir base_path))
    → resolve_import_path vfs base_path specifier ≡ resolved path
    → IsRooted path
unfolding resolve_import_path base_components
resolve_import_path-IsRooted vfs base_path specifier path relative plain e =
    let cs = split (base_dir base_path) in
    let base =
      reverse-IsPart (keep is_component cs) []
        (base_parts cs (split-NoSlash (base_dir base_path)) plain) tt in
    go (walk (split specifier) (base_components base_path)) refl (
      walk_parts (walk-Walk (split specifier) (base_components base_path)) (split-NoSlash specifier)
        base)
  where
    go :
        (r : Option (List Text))
        → walk (split specifier) (base_components base_path) ≡ r
        → AllParts r
        → IsRooted path
    go none f v = absurd (cc (rw (resolve_import_path, relative, f) at e))
    go (some stack) f v =
        let same : with_extension vfs (b'/' ∷ join_parts (reverse stack)) ≡ path =
          cc (rw (resolve_import_path, relative, f) at e) in
        subst IsRooted same
          (with_extension-IsRooted vfs (reverse stack) (reverse-IsPart stack [] v tt))
