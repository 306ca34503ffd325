-- ===== src/Esm/Bounds.antt =====
-- When `resolve_import_path` of src/v8/module.rs refuses a specifier.
use nano_rs.Common.{
  ℕ, suc, ◌+◌, ◌<◌, ◌≡◌, ◌↔◌, refl, ap, false, not, ◌&&◌, Option, none, some, List, [], ◌∷◌, ◌++◌,
  Text, bytes, length, str_eq, str_eq_iff, if◌then◌else◌, arith,
}
use nano_rs.Vfs.Path.{split}
use nano_rs.Vfs.Isolate.{IsolateVfs}
use nano_rs.Esm.{
  Move, stay, up, down, move_of, walk, is_component, base_components, starts_with, out_of_bounds,
  resolve_import_path,
}

abbrev dotdot : Text
dotdot = bytes ".."

-- How many components go up, and how many are names.
abbrev pub ups : List Text → ℕ
ups [] = 0
ups (c ∷ rest) = if str_eq c dotdot then suc (ups rest) else ups rest

abbrev pub downs : List Text → ℕ
downs [] = 0
downs (c ∷ rest) = if is_component c && not (str_eq c dotdot) then suc (downs rest) else downs rest

-- Some first components go up more often than there are directories to leave.
abbrev pub Escapes : ℕ → List Text → Type 0
Escapes depth components =
    (front back : List Text) × (components ≡ front ++ back) × (depth + downs front < ups front)

-- How far down a move goes, and how far up.
abbrev down_of : Move → ℕ
down_of down = 1
down_of _ = 0

abbrev up_of : Move → ℕ
up_of up = 1
up_of _ = 0

move_counts :
    (c : Text) (rest : List Text)
    → (ups (c ∷ rest) ≡ up_of (move_of c) + ups rest)
      × (downs (c ∷ rest) ≡ down_of (move_of c) + downs rest)
unfolding move_of is_component
move_counts c rest = ground (arith, str_eq_iff c dotdot, str_eq_iff c (bytes "."))

-- A walk, by the moves of the components.
pub data Walk : List Text → List Text → Option (List Text) → Type 0 where
  ended : {stack : List Text} → Walk [] stack (some stack)
  stayed :
      {c : Text} {rest stack : List Text} {r : Option (List Text)}
      → move_of c ≡ stay
      → Walk rest stack r
      → Walk (c ∷ rest) stack r
  left :
      {c d : Text} {rest stack : List Text} {r : Option (List Text)}
      → move_of c ≡ up
      → Walk rest stack r
      → Walk (c ∷ rest) (d ∷ stack) r
  refused : {c : Text} {rest : List Text} → move_of c ≡ up → Walk (c ∷ rest) [] none
  entered :
      {c : Text} {rest stack : List Text} {r : Option (List Text)}
      → move_of c ≡ down
      → Walk rest (c ∷ stack) r
      → Walk (c ∷ rest) stack r

pub walk-Walk : (parts stack : List Text) → Walk parts stack (walk parts stack)
unfolding walk
walk-Walk [] stack = ended
walk-Walk (c ∷ rest) stack = go (walk-Walk rest) (move_of c) refl stack
  where
    go :
        ((stack : List Text) → Walk rest stack (walk rest stack))
        → (m : Move) → move_of c ≡ m
        → (stack : List Text) → Walk (c ∷ rest) stack (walk (c ∷ rest) stack)
    go later stay f stack = rw (walk, f) (stayed f (later stack))
    go later up f [] = rw (walk, f) (refused f)
    go later up f (d ∷ stack) = rw (walk, f) (left f (later stack))
    go later down f stack = rw (walk, f) (entered f (later (c ∷ stack)))

-- What a walk leaves: the end has gone down as often as it says, every front of one that ends
-- ends, and one that fails has a front that escapes.
abbrev Outcome : ℕ → List Text → Option (List Text) → Type 0
Outcome depth parts none = Escapes depth parts
Outcome depth parts (some _) = ¬ Escapes depth parts

extend :
    (c : Text) (rest : List Text) (depth depth' : ℕ)
    → depth + down_of (move_of c) ≡ depth' + up_of (move_of c)
    → Escapes depth' rest
    → Escapes depth (c ∷ rest)
extend c rest depth depth' h (front, back, parted, over) =
    let (u, d) = move_counts c front in
    (c ∷ front, back, ap (λ l. c ∷ l) parted, omega (arith, over, h, u, d))

-- The first component of a front that escapes.
shrink :
    (c : Text) (rest : List Text) (depth depth' : ℕ)
    → depth + down_of (move_of c) ≡ depth' + up_of (move_of c)
    → Escapes depth (c ∷ rest)
    → Escapes depth' rest
shrink c rest depth depth' h ([], back, parted, over) = absurd (omega (arith, over))
shrink c rest depth depth' h (c' ∷ front, back, parted, over) =
    let first : c ≡ c' = cc parted in
    let later : rest ≡ front ++ back = cc parted in
    let (u, d) = move_counts c' front in
    let same_ups : ups (c ∷ front) ≡ ups (c' ∷ front) = ap (λ x. ups (x ∷ front)) first in
    let same_downs : downs (c ∷ front) ≡ downs (c' ∷ front) = ap (λ x. downs (x ∷ front)) first in
    let (u, d) = move_counts c front in
    (front, back, later, omega (arith, over, h, u, d, same_ups, same_downs))

outcome_step :
    (c : Text) (rest : List Text) (m : Move) (depth depth' : ℕ) (r : Option (List Text))
    → move_of c ≡ m
    → depth + down_of m ≡ depth' + up_of m
    → Outcome depth' rest r
    → Outcome depth (c ∷ rest) r
outcome_step c rest m depth depth' none f h o = extend c rest depth depth' (rw (f) h) o
outcome_step c rest m depth depth' (some _) f h o = λ x. o (shrink c rest depth depth' (rw (f) h) x)

not-Escapes : (depth : ℕ) → ¬ Escapes depth []
not-Escapes depth ([], back, parted, over) = omega (arith, over)
not-Escapes depth (c ∷ front, back, parted, over) = cc parted

walk_outcome :
    {parts stack : List Text} {r : Option (List Text)}
    → Walk parts stack r
    → Outcome (length stack) parts r
walk_outcome (ended {stack = stack}) = not-Escapes (length stack)
walk_outcome (stayed {c = c} {rest = rest} {stack = stack} {r = r} f w) =
    outcome_step c rest stay (length stack) (length stack) r f refl (walk_outcome w)
walk_outcome (left {c = c} {rest = rest} {stack = stack} {r = r} f w) =
    outcome_step c rest up (suc (length stack)) (length stack) r f (omega arith) (walk_outcome w)
walk_outcome (refused {c = c} {rest = rest} f) =
    let (u, d) = move_counts c [] in
    (c ∷ [], rest, refl, omega (arith, u, d, ap up_of f, ap down_of f))
walk_outcome (entered {c = c} {rest = rest} {stack = stack} {r = r} f w) =
    outcome_step c rest down (length stack) (suc (length stack)) r f (omega arith) (walk_outcome w)

-- An import that is not absolute is refused exactly if some first components of its specifier go
-- up more often than the base directory and their own names have components.
pub resolve_import_path-out_of_bounds :
    (vfs : IsolateVfs) (base_path specifier : Text)
    → starts_with (bytes "/") specifier ≡ false
    → (resolve_import_path vfs base_path specifier ≡ out_of_bounds specifier base_path)
      ↔ Escapes (length (base_components base_path)) (split specifier)
unfolding resolve_import_path
resolve_import_path-out_of_bounds vfs base_path specifier relative =
    go (walk (split specifier) (base_components base_path)) refl
      (walk_outcome (walk-Walk (split specifier) (base_components base_path)))
  where
    go :
        (r : Option (List Text))
        → walk (split specifier) (base_components base_path) ≡ r
        → Outcome (length (base_components base_path)) (split specifier) r
        → (resolve_import_path vfs base_path specifier ≡ out_of_bounds specifier base_path)
          ↔ Escapes (length (base_components base_path)) (split specifier)
    go none f o = ((λ _. o), (λ _. rw (resolve_import_path, relative, f) refl))
    go (some components) f o =
        ((λ e. absurd (cc (rw (resolve_import_path, relative, f) at e))), (λ x. absurd (o x)))
