-- ===== src/Common/Assoc.antt =====
-- A hash map with string keys as an association list, in some order, each key once.
use Prim.Native.Nat.{ℕ, suc, ◌+◌}
use mathlib.Core.Path.{◌≡◌, refl, subst₂}
use mathlib.Core.Logic.{inl, inr}
use mathlib.Core.Bool.{Bool, true, false}
use mathlib.Core.Option.{Option, none, some}
use mathlib.Core.List.{List, [], ◌∷◌}
use native.Mathlib.Omega.{arith}
use nano_rs.Common.Tests.{if◌then◌else◌, Bool-cases}
use nano_rs.Common.Lists.{length, sum_of}
use nano_rs.Common.Bytes.{Text, str_eq, str_eq_iff}

module _ {ℓ} {V : Type ℓ} where
  unfoldable pub get : Text → List (Text × V) → Option V
  get k [] = none
  get k ((j, v) ∷ m) = if str_eq j k then some v else get k m

  unfoldable pub put : Text → V → List (Text × V) → List (Text × V)
  put k v [] = (k, v) ∷ []
  put k v ((j, w) ∷ m) = if str_eq j k then (k, v) ∷ m else (j, w) ∷ put k v m

  unfoldable pub del : Text → List (Text × V) → List (Text × V)
  del k [] = []
  del k ((j, w) ∷ m) = if str_eq j k then m else (j, w) ∷ del k m

  abbrev pub has_key : Text → List (Text × V) → Bool
  has_key k m = elim (get k m) [ none ↦ false | some _ ↦ true ]

  abbrev pub Distinct : List (Text × V) → Type ℓ
  Distinct [] = Unit
  Distinct ((k, v) ∷ m) = (get k m ≡ none) × Distinct m

  pub get-put :
      (k j : Text) (v : V) (m : List (Text × V))
      → get j (put k v m) ≡ (if str_eq k j then some v else get j m)
  unfolding get put
  get-put k j v [] = refl
  get-put k j v ((i, w) ∷ m) =
      ground (arith, str_eq_iff k j, str_eq_iff i k, str_eq_iff i j, get-put k j v m)

  pub get-del_ne :
      (k j : Text) (m : List (Text × V)) → str_eq k j ≡ false → get j (del k m) ≡ get j m
  unfolding get del
  get-del_ne k j [] h = refl
  get-del_ne k j ((i, w) ∷ m) h =
      ground (arith, str_eq_iff k j, str_eq_iff i k, str_eq_iff i j, get-del_ne k j m h)

  pub get-del_self : (k : Text) (m : List (Text × V)) → Distinct m → get k (del k m) ≡ none
  unfolding get del
  get-del_self k [] d = refl
  get-del_self k ((i, w) ∷ m) d = ground (arith, str_eq_iff i k, get-del_self k m d.1)

  pub put-Distinct : (k : Text) (v : V) (m : List (Text × V)) → Distinct m → Distinct (put k v m)
  unfolding put get
  put-Distinct k v [] d = (refl, tt)
  put-Distinct k v ((i, w) ∷ m) d =
      ground (arith, str_eq_iff i k, str_eq_iff k i, get-put k i v m, put-Distinct k v m d.1)

  pub del-put : (k : Text) (v : V) (m : List (Text × V)) → del k (put k v m) ≡ del k m
  unfolding put del
  del-put k v [] = ground (arith, str_eq_iff k k)
  del-put k v ((i, w) ∷ m) = ground (arith, str_eq_iff i k, str_eq_iff k k, del-put k v m)

  get-del-none : (k j : Text) (m : List (Text × V)) → get j m ≡ none → get j (del k m) ≡ none
  unfolding get del
  get-del-none k j [] h = refl
  get-del-none k j ((i, w) ∷ m) h = ground (arith, get-del-none k j m)

  pub del-Distinct : (k : Text) (m : List (Text × V)) → Distinct m → Distinct (del k m)
  unfolding del
  del-Distinct k [] d = tt
  del-Distinct k ((i, w) ∷ m) d = ground (arith, get-del-none k i m d.0, del-Distinct k m d.1)

  pub length-put :
      (k : Text) (v : V) (m : List (Text × V))
      → length (put k v m) ≡ (if has_key k m then length m else suc (length m))
  unfolding put get
  length-put k v [] = refl
  length-put k v ((i, w) ∷ m) = ground (arith, length-put k v m)

  pub length-del :
      (k : Text) (m : List (Text × V))
      → length m ≡ (if has_key k m then suc (length (del k m)) else length (del k m))
  unfolding del get
  length-del k [] = refl
  length-del k ((i, w) ∷ m) = ground (arith, length-del k m)

  -- The weight of the value under a key, 0 if there is none.
  abbrev pub weight_at : (V → ℕ) → Text → List (Text × V) → ℕ
  weight_at f k m = elim (get k m) [ none ↦ 0 | some v ↦ f v ]

  abbrev pub weight : (V → ℕ) → List (Text × V) → ℕ
  weight f = sum_of (λ e. f e.1)

  pub weight-put :
      (f : V → ℕ) (k : Text) (v : V) (m : List (Text × V))
      → weight f (put k v m) + weight_at f k m ≡ weight f m + f v
  unfolding put get
  weight-put f k v [] = omega arith
  weight-put f k v ((i, w) ∷ m) = ground (arith, weight-put f k v m)

  pub weight-del :
      (f : V → ℕ) (k : Text) (m : List (Text × V))
      → weight f (del k m) + weight_at f k m ≡ weight f m
  unfolding del get
  weight-del f k [] = omega arith
  weight-del f k ((i, w) ∷ m) = ground (arith, weight-del f k m)

-- Every entry of a map satisfies a predicate.
module _ {ℓ κ} {V : Type ℓ} (P : Text → V → Type κ) where
  abbrev pub Entries : List (Text × V) → Type κ
  Entries [] = Unit
  Entries ((k, v) ∷ m) = P k v × Entries m

  pub put-Entries :
      (k : Text) (v : V) (m : List (Text × V)) → Entries m → P k v → Entries (put k v m)
  unfolding put
  put-Entries k v [] h p = (p, tt)
  put-Entries k v ((i, w) ∷ m) h p = ground (arith, put-Entries k v m h.1 p)

  pub del-Entries : (k : Text) (m : List (Text × V)) → Entries m → Entries (del k m)
  unfolding del
  del-Entries k [] h = tt
  del-Entries k ((i, w) ∷ m) h = ground (arith, del-Entries k m h.1)

  pub get-Entries : (k : Text) (m : List (Text × V)) (v : V) → Entries m → get k m ≡ some v → P k v
  unfolding get
  get-Entries k [] v h e = cc
  get-Entries k ((i, w) ∷ m) v h e = elim (Bool-cases (str_eq i k)) [
    | inl same ↦ let q : w ≡ v = ground arith in subst₂ P ((str_eq_iff i k).0 same) q h.0
    | inr other ↦ get-Entries k m v h.1 (rw (other, get) at e)
  ]
