-- ===== src/Sliver/Suggest/Edits.antt =====
-- Edits of texts, and the least number of them.
use nano_rs.Common.{
  ℕ, suc, ◌+◌, ◌≤◌, ◌≡◌, refl, subst, [], ◌∷◌, Text, length, leb, ◌==◌, arith, Bool-cases, inl, inr,
}
use nano_rs.Sliver.Suggest.{min, cost}

-- The first text becomes the second by `n` edits of one character each.
pub data Edits : ℕ → Text → Text → Type 0 where
  done : Edits 0 [] []
  keep_char : {n : ℕ} {a b : Text} → (c : ℕ) → Edits n a b → Edits n (c ∷ a) (c ∷ b)
  replace_char : {n : ℕ} {a b : Text} → (c d : ℕ) → Edits n a b → Edits (suc n) (c ∷ a) (d ∷ b)
  delete_char : {n : ℕ} {a b : Text} → (c : ℕ) → Edits n a b → Edits (suc n) (c ∷ a) b
  insert_char : {n : ℕ} {a b : Text} → (d : ℕ) → Edits n a b → Edits (suc n) a (d ∷ b)

-- The distance, by the heads of the texts.
unfoldable pub distance : Text → Text → ℕ
distance [] b = length b
distance (x ∷ a) [] = suc (length a)
distance (x ∷ a) (y ∷ b) =
    min (min (distance a (y ∷ b) + 1) (distance (x ∷ a) b + 1)) (distance a b + cost x y)

pub distance_none : (a : Text) → distance a [] ≡ length a
unfolding distance
distance_none [] = refl
distance_none (x ∷ a) = refl

distance-delete : (c : ℕ) (a b : Text) → distance (c ∷ a) b ≤ suc (distance a b)
unfolding distance
distance-delete c a [] = omega (arith, distance_none a)
distance-delete c a (y ∷ b) = ground arith

distance-insert : (d : ℕ) (a b : Text) → distance a (d ∷ b) ≤ suc (distance a b)
unfolding distance
distance-insert d [] b = omega arith
distance-insert d (x ∷ a) b = ground arith

distance-le : (n : ℕ) (a b : Text) → Edits n a b → distance a b ≤ n
unfolding distance
distance-le _ _ _ done = omega arith
distance-le _ _ _ (keep_char {n} {a} {b} c e) = ground (arith, distance-le n a b e)
distance-le _ _ _ (replace_char {n} {a} {b} c d e) = ground (arith, distance-le n a b e)
distance-le _ _ _ (delete_char {n} {a} {b} c e) =
    omega (arith, distance-le n a b e, distance-delete c a b)
distance-le _ _ _ (insert_char {n} {a} {b} d e) =
    omega (arith, distance-le n a b e, distance-insert d a b)

insert_all : (b : Text) → Edits (length b) [] b
insert_all [] = done
insert_all (d ∷ b) = insert_char d (insert_all b)

delete_all : (a : Text) → Edits (length a) a []
delete_all [] = done
delete_all (c ∷ a) = delete_char c (delete_all a)

suc_as_add : (n : ℕ) → suc n ≡ n + 1
suc_as_add n = omega arith

unchanged : (n : ℕ) → n ≡ n + 0
unchanged n = omega arith

zero_first : (n : ℕ) → 0 + n ≡ n
zero_first n = omega arith

suc_moves : (m n : ℕ) → suc m + n ≡ m + suc n
suc_moves m n = omega arith

Edits-min : (m n : ℕ) (a b : Text) → Edits m a b → Edits n a b → Edits (min m n) a b
Edits-min m n a b e e' = elim (Bool-cases (leb m n)) [
  | inl less ↦ rw less e
  | inr more ↦ rw more e'
]

Edits-cost : (n x y : ℕ) (a b : Text) → Edits n a b → Edits (n + cost x y) (x ∷ a) (y ∷ b)
Edits-cost n x y a b e = elim (Bool-cases (x == y)) [
  | inl same ↦
      let alike : x ≡ y = ground (arith, same) in
      rw same (
        subst (λ k. Edits k (x ∷ a) (y ∷ b)) (unchanged n)
          (subst (λ z. Edits n (x ∷ a) (z ∷ b)) alike (keep_char x e)))
  | inr other ↦ rw other (subst (λ k. Edits k (x ∷ a) (y ∷ b)) (suc_as_add n) (replace_char x y e))
]

Edits-distance : (a b : Text) → Edits (distance a b) a b
unfolding distance
Edits-distance [] b = insert_all b
Edits-distance (x ∷ a) [] = delete_all (x ∷ a)
Edits-distance (x ∷ a) (y ∷ b) =
    let deleted =
      subst (λ k. Edits k (x ∷ a) (y ∷ b)) (suc_as_add (distance a (y ∷ b)))
        (delete_char x (Edits-distance a (y ∷ b))) in
    let inserted =
      subst (λ k. Edits k (x ∷ a) (y ∷ b)) (suc_as_add (distance (x ∷ a) b))
        (insert_char y (Edits-distance (x ∷ a) b)) in
    Edits-min _ _ (x ∷ a) (y ∷ b) (Edits-min _ _ (x ∷ a) (y ∷ b) deleted inserted)
      (Edits-cost (distance a b) x y a b (Edits-distance a b))

-- The characters of the second text, the last one first, before those of the first.
unfoldable pub onto : Text → Text → Text
onto p [] = p
onto p (c ∷ a) = onto (c ∷ p) a

onto_twice : (p a : Text) → onto [] (onto p a) ≡ onto a p
unfolding onto
onto_twice p [] = refl
onto_twice p (c ∷ a) = onto_twice (c ∷ p) a

Edits-onto :
    (m n : ℕ) (p q a b : Text) → Edits m p q → Edits n a b → Edits (m + n) (onto p a) (onto q b)
unfolding onto
Edits-onto m _ p q _ _ e done = subst (λ k. Edits k p q) (unchanged m) e
Edits-onto m _ p q _ _ e (keep_char {n} {a} {b} c e') =
    Edits-onto m n (c ∷ p) (c ∷ q) a b (keep_char c e) e'
Edits-onto m _ p q _ _ e (replace_char {n} {a} {b} c d e') =
    subst (λ k. Edits k (onto (c ∷ p) a) (onto (d ∷ q) b)) (suc_moves m n)
      (Edits-onto (suc m) n (c ∷ p) (d ∷ q) a b (replace_char c d e) e')
Edits-onto m _ p q _ _ e (delete_char {n} {a} {b} c e') =
    subst (λ k. Edits k (onto (c ∷ p) a) (onto q b)) (suc_moves m n)
      (Edits-onto (suc m) n (c ∷ p) q a b (delete_char c e) e')
Edits-onto m _ p q _ _ e (insert_char {n} {a} {b} d e') =
    subst (λ k. Edits k (onto p a) (onto (d ∷ q) b)) (suc_moves m n)
      (Edits-onto (suc m) n p (d ∷ q) a b (insert_char d e) e')

Edits_backwards : (n : ℕ) (a b : Text) → Edits n a b → Edits n (onto [] a) (onto [] b)
Edits_backwards n a b e =
    subst (λ k. Edits k (onto [] a) (onto [] b)) (zero_first n) (Edits-onto 0 n [] [] a b done e)

-- The number of edits that the first text needs at least.
pub record IsLeast (d : ℕ) (a b : Text) : Type 0 where
  pub reached : Edits d a b
  pub least : (n : ℕ) → Edits n a b → d ≤ n

pub distance-IsLeast : (a b : Text) → IsLeast (distance (onto [] a) (onto [] b)) a b
unfolding onto
distance-IsLeast a b = record {
  reached =
      let back = Edits_backwards _ _ _ (Edits-distance (onto [] a) (onto [] b)) in
      subst (λ x. Edits (distance (onto [] a) (onto [] b)) x b) (onto_twice [] a)
        (subst (λ y. Edits (distance (onto [] a) (onto [] b)) (onto [] (onto [] a)) y)
          (onto_twice [] b) back);
  least = λ n e. distance-le n (onto [] a) (onto [] b) (Edits_backwards n a b e);
}
