-- ===== src/Vfs/Memory/Listing/Parts.antt =====
-- The parts of paths and of keys, for the listing of src/vfs/memory.rs.
use nano_rs.Common.{
  ◌≡◌, ◌⊎◌, inl, inr, refl, sym, ap, subst, ◌∙◌, true, some, [], ◌∷◌, ◌++◌, Text, strip_prefix, All,
  Bool-cases, ◌==◌, arith,
}
use nano_rs.Vfs.Path.{split, split_parts}
use nano_rs.Vfs.Path.Laws.{IsName, IsNormal, split-join_parts_ne, IsName-NoSlash}
use nano_rs.Vfs.Memory.{ends_with_slash, with_slash}

-- All that stands behind a slash has the parts behind it.
pub tail_parts :
    (P : Text → Type 0) (p r : Text) → All P (split_parts (p ++ (b'/' ∷ r))).1 → All P (split r)
unfolding split split_parts
tail_parts P [] r h = h
tail_parts P (c ∷ p) r h = ground (arith, tail_parts P p r, h)

pub strip_prefix-append : (p s : Text) → strip_prefix p (p ++ s) ≡ some s
unfolding strip_prefix
strip_prefix-append [] s = refl
strip_prefix-append (c ∷ p) s = ground (arith, strip_prefix-append p s)

pub append-strip_prefix : (p s r : Text) → strip_prefix p s ≡ some r → s ≡ p ++ r
unfolding strip_prefix
append-strip_prefix [] s r e = cc e
append-strip_prefix (c ∷ p) [] r e = absurd (cc e)
append-strip_prefix (c ∷ p) (d ∷ s) r e = ground (arith, append-strip_prefix p s r, e)

-- The first part of a text: all of it, or what stands before the first slash.
pub first_part :
    (s : Text)
    → (s ≡ (split_parts s).0) ⊎ ((below : Text) × (s ≡ (split_parts s).0 ++ (b'/' ∷ below)))
unfolding split_parts
first_part [] = inl refl
first_part (c ∷ s) = elim (Bool-cases (c == b'/')) [
  | inl e ↦ let same : c ≡ b'/' = ground (arith, e) in rw (e) (inr (s, ap (λ x. x ∷ s) same))
  | inr e ↦ rw (e) (elim (first_part s) [
    | inl whole ↦ inl (ap (λ t. c ∷ t) whole)
    | inr (below, front) ↦ inr (below, ap (λ t. c ∷ t) front)
  ])
]

pub ends_with_slash-true :
    (s : Text) → ends_with_slash s ≡ true → (p : Text) × (s ≡ p ++ (b'/' ∷ []))
unfolding ends_with_slash
ends_with_slash-true [] e = absurd (cc e)
ends_with_slash-true (c ∷ []) e = ([], ground (arith, e))
ends_with_slash-true (c ∷ d ∷ s) e =
    let (p, h) = ends_with_slash-true (d ∷ s) e in (c ∷ p, ap (λ t. c ∷ t) h)

pub normal_parts : (p : Text) → IsNormal p → All IsName (split p)
normal_parts p n =
    subst (All IsName)
      (sym (
        ap split n.joined
        ∙ split-join_parts_ne n.names n.some_name (IsName-NoSlash n.names n.all_names)))
      n.all_names

-- The parts of what stands behind a slash of a path in normal form are names.
pub parts_behind : (p r : Text) → IsNormal (p ++ (b'/' ∷ r)) → All IsName (split r)
unfolding split
parts_behind p r n = tail_parts IsName p r (normal_parts _ n).1

pub with_slash-normal : (p : Text) → IsNormal p → with_slash p ≡ p ++ (b'/' ∷ [])
unfolding with_slash split split_parts
with_slash-normal p n = elim (Bool-cases (ends_with_slash p)) [
  | inl e ↦
      let (q, h) = ends_with_slash-true p e in
      absurd ((parts_behind q [] (subst IsNormal h n)).0.0 refl)
  | inr e ↦ rw (e) refl
]
