-- ===== src/Vfs/Path/Split.antt =====
-- Splitting at the slashes and joining again.
use nano_rs.Common.{
  ℕ, suc, ◌≤◌, ◌≡◌, refl, ap, ◌∙◌, ◌≢◌, Bool, List, [], ◌∷◌, ◌++◌, Text, length, keep, sum_of,
  sum_of-keep-le, All, All-append, length-append, arith,
}
use nano_rs.Vfs.Path.{
  trim_start, trim_cons, trim_end, split_parts, split, join_parts, nonempty, normalize,
}

abbrev pub NoSlash : Text → Type 0
NoSlash = All (λ c. c ≢ b'/')

split_parts-NoSlash : (s : Text) → NoSlash (split_parts s).0 × All NoSlash (split_parts s).1
unfolding split_parts
split_parts-NoSlash [] = (tt, tt)
split_parts-NoSlash (c ∷ s) = ground (arith, split_parts-NoSlash s)

pub split-NoSlash : (s : Text) → All NoSlash (split s)
unfolding split
split-NoSlash s = split_parts-NoSlash s

-- What holds of every byte of a text holds of every byte of its parts, and the other way round.
module _ (P : ℕ → Type 0) where
  split_parts-All : (s : Text) → All P s → All P (split_parts s).0 × All (All P) (split_parts s).1
  unfolding split_parts
  split_parts-All [] h = (tt, tt)
  split_parts-All (c ∷ s) h = ground (arith, split_parts-All s h.1)

  pub split-All : (s : Text) → All P s → All (All P) (split s)
  unfolding split
  split-All s h = split_parts-All s h

  pub join_parts-All : P b'/' → (ps : List Text) → All (All P) ps → All P (join_parts ps)
  unfolding join_parts
  join_parts-All q [] h = tt
  join_parts-All q (p ∷ []) h = h.0
  join_parts-All q (p ∷ r ∷ ps) h =
      All-append P p (b'/' ∷ join_parts (r ∷ ps)) h.0 (q, join_parts-All q (r ∷ ps) h.1)

pub split_parts-slash :
    (p s : Text)
    → NoSlash p
    → ((split_parts (p ++ (b'/' ∷ s))).0 ≡ p)
      × ((split_parts (p ++ (b'/' ∷ s))).1 ≡ (split_parts s).0 ∷ (split_parts s).1)
unfolding split_parts
split_parts-slash [] s h = (refl, refl)
split_parts-slash (c ∷ p) s h = ground (arith, split_parts-slash p s h.1)

pub split_parts_of_NoSlash :
    (p : Text) → NoSlash p → ((split_parts p).0 ≡ p) × ((split_parts p).1 ≡ [])
unfolding split_parts
split_parts_of_NoSlash [] h = (refl, refl)
split_parts_of_NoSlash (c ∷ p) h = ground (arith, split_parts_of_NoSlash p h.1)

pub split-join_parts :
    (p : Text) (ps : List Text) → All NoSlash (p ∷ ps) → split (join_parts (p ∷ ps)) ≡ p ∷ ps
unfolding split join_parts
split-join_parts p [] h = ground (arith, split_parts_of_NoSlash p h.0)
split-join_parts p (q ∷ ps) h =
    ground (arith, split_parts-slash p (join_parts (q ∷ ps)) h.0, split-join_parts q ps h.1)

-- The bytes and the slashes of a text are all of its length.
sum_of-split : (s : Text) → sum_of (λ p. suc (length p)) (split s) ≡ suc (length s)
unfolding split split_parts
sum_of-split [] = refl
sum_of-split (c ∷ s) = ground (arith, sum_of-split s)

length-join_parts :
    (p : Text) (ps : List Text)
    → suc (length (join_parts (p ∷ ps))) ≡ sum_of (λ q. suc (length q)) (p ∷ ps)
unfolding join_parts
length-join_parts p [] = omega arith
length-join_parts p (q ∷ ps) =
    omega (arith, length-append p (b'/' ∷ join_parts (q ∷ ps)), length-join_parts q ps)

length-join_parts-le :
    (ps : List Text) (n : ℕ) → sum_of (λ q. suc (length q)) ps ≤ suc n → length (join_parts ps) ≤ n
unfolding join_parts
length-join_parts-le [] n h = omega arith
length-join_parts-le (p ∷ ps) n h = omega (arith, length-join_parts p ps)

pub length-join_parts-keep :
    (p : Text → Bool) (s : Text) → length (join_parts (keep p (split s))) ≤ length s
length-join_parts-keep p s =
    length-join_parts-le (keep p (split s)) (length s)
      (omega (arith, sum_of-keep-le (λ q. suc (length q)) p (split s), sum_of-split s))

-- The trims take away empty parts only.
keep-split-trim_start : (s : Text) → keep nonempty (split (trim_start s)) ≡ keep nonempty (split s)
unfolding split split_parts trim_start
keep-split-trim_start [] = refl
keep-split-trim_start (c ∷ s) = ground (arith, keep-split-trim_start s)

-- The first part, and the rest without what is empty, are the same.
abbrev SameParts : Text → Text → Type 0
SameParts t s =
    ((split_parts t).0 ≡ (split_parts s).0)
    × (keep nonempty (split_parts t).1 ≡ keep nonempty (split_parts s).1)

trim_cons-SameParts : (c : ℕ) (t s : Text) → SameParts t s → SameParts (trim_cons c t) (c ∷ s)
unfolding split_parts trim_cons
trim_cons-SameParts c [] s h = ground arith
trim_cons-SameParts c (d ∷ t) s h = ground arith

trim_end-SameParts : (s : Text) → SameParts (trim_end s) s
unfolding trim_end
trim_end-SameParts [] = (refl, refl)
trim_end-SameParts (c ∷ s) = trim_cons-SameParts c (trim_end s) s (trim_end-SameParts s)

keep-split-trim_end : (s : Text) → keep nonempty (split (trim_end s)) ≡ keep nonempty (split s)
unfolding split
keep-split-trim_end s = ground (arith, trim_end-SameParts s)

-- Trimming first changes nothing: the normal form joins the parts that are not empty.
pub normalize_lem : (s : Text) → normalize s ≡ join_parts (keep nonempty (split s))
unfolding normalize
normalize_lem s = ap join_parts (keep-split-trim_end (trim_start s) ∙ keep-split-trim_start s)
