-- ===== src/Eviction/Sort.antt =====
-- The stable sort of the standard library (`sort_by_key`), by an order on the elements.
use mathlib.Core.List.{Perm}
use mathlib.Core.List.Perm
use nano_rs.Common.{
  ℕ, zero, suc, ◌≡◌, refl, ap, ◌≢◌, inl, inr, Bool, true, false, List, [], ◌∷◌, ◌++◌, length, take,
  All, if◌then◌else◌, Bool-cases, arith,
}

module _ {ℓ} {A : Type ℓ} where
  abbrev pub drop : ℕ → List A → List A
  drop zero xs = xs
  drop (suc n) [] = []
  drop (suc n) (x ∷ xs) = drop n xs

  pub take-append-drop : (n : ℕ) (xs : List A) → take n xs ++ drop n xs ≡ xs
  take-append-drop zero xs = refl
  take-append-drop (suc n) [] = refl
  take-append-drop (suc n) (x ∷ xs) = rw (take-append-drop n xs)

  pub length-take : (n : ℕ) (xs : List A) → drop n xs ≢ [] → length (take n xs) ≡ n
  length-take zero xs h = refl
  length-take (suc n) [] h = absurd (h refl)
  length-take (suc n) (x ∷ xs) h = ap suc (length-take n xs h)

module _ {ℓ} {A : Type ℓ} (le : A → A → Bool) where
  insert_by : A → List A → List A
  insert_by x [] = x ∷ []
  insert_by x (y ∷ ys) = if le x y then x ∷ y ∷ ys else y ∷ insert_by x ys

  unfoldable pub sort_by : List A → List A
  unfolding insert_by
  sort_by [] = []
  sort_by (x ∷ xs) = insert_by x (sort_by xs)

  insert_by-perm : (x : A) (ys : List A) → Perm (insert_by x ys) (x ∷ ys)
  unfolding insert_by
  insert_by-perm x [] = Perm.refl (x ∷ [])
  insert_by-perm x (y ∷ ys) = elim (Bool-cases (le x y)) [
    | inl le_x ↦ rw le_x (Perm.refl (x ∷ y ∷ ys))
    | inr gt_x ↦ rw gt_x (Perm.trans (Perm.cons y (insert_by-perm x ys)) (Perm.swap x y ys))
  ]

  pub sort_by-perm : (xs : List A) → Perm (sort_by xs) xs
  unfolding sort_by
  sort_by-perm [] = Perm.refl []
  sort_by-perm (x ∷ xs) = Perm.trans (insert_by-perm x (sort_by xs)) (Perm.cons x (sort_by-perm xs))

  insert_by-All_of {κ} :
      (P : A → Type κ) (x : A) (ys : List A) → P x → All P ys → All P (insert_by x ys)
  unfolding insert_by
  insert_by-All_of P x [] h a = (h, tt)
  insert_by-All_of P x (y ∷ ys) h a = ground (arith, insert_by-All_of P x ys h a.1)

  pub sort_by-All {κ} : (P : A → Type κ) (xs : List A) → All P xs → All P (sort_by xs)
  unfolding sort_by
  sort_by-All P [] h = tt
  sort_by-All P (x ∷ xs) h = insert_by-All_of P x (sort_by xs) h.0 (sort_by-All P xs h.1)

  -- No element stands behind one that is greater.
  abbrev pub IsSorted : List A → Type ℓ
  IsSorted [] = Unit
  IsSorted (x ∷ xs) = All (λ y. le x y ≡ true) xs × IsSorted xs

  module _ (total : (x y : A) → le x y ≡ false → le y x ≡ true)
      (trans : (x y z : A) → le x y ≡ true → le y z ≡ true → le x z ≡ true) where
    All-le :
        (x y : A) (zs : List A)
        → le x y ≡ true
        → All (λ z. le y z ≡ true) zs
        → All (λ z. le x z ≡ true) zs
    All-le x y [] h a = tt
    All-le x y (z ∷ zs) h a = (trans x y z h a.0, All-le x y zs h a.1)

    insert_by-All :
        (x y : A) (zs : List A)
        → le y x ≡ true
        → All (λ z. le y z ≡ true) zs
        → All (λ z. le y z ≡ true) (insert_by x zs)
    unfolding insert_by
    insert_by-All x y [] h a = (h, tt)
    insert_by-All x y (z ∷ zs) h a = ground (arith, insert_by-All x y zs h a.1)

    insert_by-IsSorted : (x : A) (ys : List A) → IsSorted ys → IsSorted (insert_by x ys)
    unfolding insert_by
    insert_by-IsSorted x [] s = (tt, tt)
    insert_by-IsSorted x (y ∷ ys) s = elim (Bool-cases (le x y)) [
      | inl h ↦ rw h ((h, All-le x y ys h s.0), s)
      | inr h ↦ rw h (insert_by-All x y ys (total x y h) s.0, insert_by-IsSorted x ys s.1)
    ]

    pub sort_by-IsSorted : (xs : List A) → IsSorted (sort_by xs)
    unfolding sort_by
    sort_by-IsSorted [] = tt
    sort_by-IsSorted (x ∷ xs) = insert_by-IsSorted x (sort_by xs) (sort_by-IsSorted xs)

  All-drop {κ} : (P : A → Type κ) (n : ℕ) (xs : List A) → All P xs → All P (drop n xs)
  All-drop P zero xs h = h
  All-drop P (suc n) [] h = tt
  All-drop P (suc n) (x ∷ xs) h = All-drop P n xs h.1

  -- What stands in front of a sorted list is no greater than what stands behind.
  pub IsSorted-split :
      (n : ℕ) (xs : List A)
      → IsSorted xs
      → All (λ x. All (λ y. le x y ≡ true) (drop n xs)) (take n xs)
  IsSorted-split zero xs s = tt
  IsSorted-split (suc n) [] s = tt
  IsSorted-split (suc n) (x ∷ xs) s = (All-drop _ n xs s.0, IsSorted-split n xs s.1)
