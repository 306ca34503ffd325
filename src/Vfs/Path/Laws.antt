-- ===== src/Vfs/Path/Laws.antt =====
-- What `VfsPath.new` accepts, and what it makes of it.
use nano_rs.Common.{
  ◌≤◌, ◌≡◌, refl, sym, ap, ◌∙◌, ◌≢◌, ◌↔◌, true, false, List, [], ◌∷◌, Text, contains, length,
  is_empty, keep, All, All-keep, str_eq_iff, arith,
}
use native.Mathlib.Nat.{le_trans}
use nano_rs.Vfs.Types.{ok}
use nano_rs.Vfs.Path.{
  split, join_parts, nonempty, normalize, dotdot, any_dotdot, max_path_length, new,
}
use nano_rs.Vfs.Path.Split.{
  NoSlash, split-NoSlash, split-All, join_parts-All, split-join_parts, length-join_parts-keep,
  normalize_lem,
}

-- A name of a file or directory: not empty, not "..", with no slash.
abbrev pub IsName : Text → Type 0
IsName p = (p ≢ []) × (p ≢ dotdot) × NoSlash p

abbrev pub NoNull : Text → Type 0
NoNull = All (λ c. c ≢ 0)

-- One or more names, joined by single slashes.
pub record IsNormal (p : Text) : Type 0 where
  pub names : List Text
  pub some_name : names ≢ []
  pub all_names : All IsName names
  pub joined : p ≡ join_parts names
  pub clean : NoNull p
  pub short : length p ≤ max_path_length

contains-NoNull : (s : Text) → contains 0 s ≡ false → NoNull s
unfolding contains
contains-NoNull [] h = tt
contains-NoNull (c ∷ s) h = ground (arith, contains-NoNull s)

NoNull-contains : (s : Text) → NoNull s → contains 0 s ≡ false
unfolding contains
NoNull-contains [] h = refl
NoNull-contains (c ∷ s) h = ground (arith, NoNull-contains s h.1)

keep-IsName :
    (ps : List Text)
    → All NoSlash ps
    → any_dotdot (keep nonempty ps) ≡ false
    → All IsName (keep nonempty ps)
unfolding any_dotdot
keep-IsName [] h d = tt
keep-IsName ([] ∷ ps) h d = keep-IsName ps h.1 d
keep-IsName ((c ∷ p) ∷ ps) h d = ground (arith, str_eq_iff (c ∷ p) dotdot, keep-IsName ps h.1)

pub IsName-any_dotdot : (ps : List Text) → All IsName ps → any_dotdot ps ≡ false
unfolding any_dotdot
IsName-any_dotdot [] h = refl
IsName-any_dotdot (p ∷ ps) h = ground (arith, str_eq_iff p dotdot, IsName-any_dotdot ps h.1)

pub IsName-NoSlash : (ps : List Text) → All IsName ps → All NoSlash ps
IsName-NoSlash [] h = tt
IsName-NoSlash (p ∷ ps) h = (h.0.2, IsName-NoSlash ps h.1)

keep-IsName_self : (ps : List Text) → All IsName ps → keep nonempty ps ≡ ps
keep-IsName_self [] h = refl
keep-IsName_self ([] ∷ ps) h = absurd (h.0.0 refl)
keep-IsName_self ((c ∷ p) ∷ ps) h = ap (◌∷◌ (c ∷ p)) (keep-IsName_self ps h.1)

pub split-join_parts_ne : (ps : List Text) → ps ≢ [] → All NoSlash ps → split (join_parts ps) ≡ ps
split-join_parts_ne [] h n = absurd (h refl)
split-join_parts_ne (p ∷ ps) h n = split-join_parts p ps n

pub join_parts-ne-nil : (ps : List Text) → ps ≢ [] → All IsName ps → join_parts ps ≢ []
unfolding join_parts
join_parts-ne-nil [] h n = absurd (h refl)
join_parts-ne-nil (p ∷ []) h n = n.0.0
join_parts-ne-nil ([] ∷ q ∷ ps) h n = absurd (n.0.0 refl)
join_parts-ne-nil ((c ∷ p) ∷ q ∷ ps) h n = λ e. cc

-- The names in a path, and the bytes of their join.
module _ (p : Text) where
  abbrev pub names_in : List Text
  names_in = keep nonempty (split p)

  names_in-NoNull : NoNull p → NoNull (join_parts names_in)
  names_in-NoNull h =
      join_parts-All (λ c. c ≢ 0) (omega arith) names_in
        (All-keep NoNull nonempty (split p) (split-All (λ c. c ≢ 0) p h))

  pub normalize_of_IsNormal : IsNormal p → normalize p ≡ p
  normalize_of_IsNormal n =
      let parts =
        ap split n.joined
        ∙ split-join_parts_ne n.names n.some_name (IsName-NoSlash n.names n.all_names) in
      normalize_lem p
      ∙ ap (λ ps. join_parts (keep nonempty ps)) parts
      ∙ ap join_parts (keep-IsName_self n.names n.all_names)
      ∙ sym n.joined

-- A path in normal form is accepted as it is.
pub new_of_IsNormal : (p : Text) → IsNormal p → new p ≡ ok p
unfolding new
new_of_IsNormal p n =
    let parts : split p ≡ n.names =
      ap split n.joined
      ∙ split-join_parts_ne n.names n.some_name (IsName-NoSlash n.names n.all_names) in
    let filled : p ≢ [] =
      λ e. join_parts-ne-nil n.names n.some_name n.all_names (sym n.joined ∙ e) in
    rw
      (
        normalize_of_IsNormal p n,
        parts,
        IsName-any_dotdot n.names n.all_names,
        NoNull-contains p n.clean,
      )
      (ground (arith, n.short))

pub names_in-IsName :
    (p : Text)
    → is_empty (normalize p) ≡ false
    → any_dotdot (split (normalize p)) ≡ false
    → All IsName (names_in p) × (names_in p ≢ [])
unfolding join_parts
names_in-IsName p filled h =
    let joined = normalize_lem p in
    let some_name : names_in p ≢ [] =
      λ e. let void : is_empty (normalize p) ≡ true = rw (joined, e) refl in cc void in
    let apart =
      split-join_parts_ne (names_in p) some_name
        (All-keep NoSlash nonempty (split p) (split-NoSlash p)) in
    (
      keep-IsName (split p) (split-NoSlash p) (sym (ap any_dotdot (ap split joined ∙ apart)) ∙ h),
      some_name,
    )

pub new-cases :
    (p q : Text)
    → new p ≡ ok q
    → (length p ≤ max_path_length)
      × (contains 0 p ≡ false)
      × (any_dotdot (split (normalize p)) ≡ false)
      × (is_empty (normalize p) ≡ false)
      × (q ≡ normalize p)
unfolding new
new-cases p q h = ground arith

-- What is accepted is in normal form: names that are neither empty nor "..", joined by single
-- slashes, with no null byte and no more than 4096 bytes.
pub new-IsNormal : (p q : Text) → new p ≡ ok q → IsNormal q
new-IsNormal p q h =
    let (short, clean, safe, filled, e) = new-cases p q h in
    let (all_names, some_name) = names_in-IsName p filled safe in
    let joined : q ≡ join_parts (names_in p) = e ∙ normalize_lem p in
    record {
      names = names_in p;
      some_name = some_name;
      all_names = all_names;
      joined = joined;
      clean = rw joined (names_in-NoNull p (contains-NoNull p clean));
      short = rw joined (le_trans (length-join_parts-keep nonempty p) short);
    }

-- The texts that `new` leaves as they are, are exactly those in normal form.
pub new_fixed_iff : (p : Text) → (new p ≡ ok p) ↔ IsNormal p
new_fixed_iff p = (new-IsNormal p p, new_of_IsNormal p)
