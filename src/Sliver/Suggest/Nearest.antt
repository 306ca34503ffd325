-- ===== src/Sliver/Suggest/Nearest.antt =====
-- Which name is suggested.
use mathlib.Core.List.{Mem, mem-cons_self, mem-cons_of_mem}
use nano_rs.Common.{
  ℕ, suc, ◌≤◌, ◌<◌, ◌≡◌, refl, subst, ◌&&◌, Option, none, some, List, [], ◌∷◌, Text, All,
  Bool-cases, inl, inr, ltb, leb, arith,
}
use nano_rs.Sliver.Suggest.{
  levenshtein_distance, byte_len, better, best_match, find_similar_internal,
}

module _ (target : Text) (threshold : ℕ) where
  -- A name that is near enough to be suggested.
  pub record IsNear (name : Text) : Type 0 where
    pub within : levenshtein_distance target name ≤ threshold
    pub shorter : levenshtein_distance target name < byte_len target

  distance_of : Option (Text × ℕ) → ℕ
  distance_of none = suc threshold
  distance_of (some (name, d)) = d

  better-le :
      (c : Text) (best : Option (Text × ℕ))
      → distance_of (better target threshold c best) ≤ distance_of best
  unfolding better distance_of
  better-le c none = ground arith
  better-le c (some (s, d)) = ground arith

  better-IsNear :
      (c : Text) (best : Option (Text × ℕ))
      → IsNear c
      → distance_of (better target threshold c best) ≤ levenshtein_distance target c
  unfolding better distance_of
  better-IsNear c none near = ground (arith, near.within, near.shorter)
  better-IsNear c (some (s, d)) near = ground (arith, near.within, near.shorter)

  best_match-le :
      (cs : List Text) (best : Option (Text × ℕ))
      → distance_of (best_match target threshold cs best) ≤ distance_of best
  unfolding best_match
  best_match-le [] best = omega arith
  best_match-le (c ∷ cs) best =
      omega (arith, best_match-le cs (better target threshold c best), better-le c best)

  best_match-IsNear :
      (cs : List Text) (best : Option (Text × ℕ))
      → All
          (λ c.
            IsNear c
            → distance_of (best_match target threshold cs best) ≤ levenshtein_distance target c)
          cs
  unfolding best_match
  best_match-IsNear [] best = tt
  best_match-IsNear (c ∷ cs) best = (
    λ near.
        omega (arith, best_match-le cs (better target threshold c best), better-IsNear c best near),
    best_match-IsNear cs (better target threshold c best),
  )

  module _ (P : Text → Type 0) where
    -- A match with its distance, near and with a property.
    IsMatch : Option (Text × ℕ) → Type 0
    IsMatch none = Unit
    IsMatch (some (name, d)) = (d ≡ levenshtein_distance target name) × (IsNear name × P name)

    better-IsMatch :
        (c : Text) (best : Option (Text × ℕ))
        → P c
        → IsMatch best
        → IsMatch (better target threshold c best)
    unfolding IsMatch better
    better-IsMatch c none p m =
        elim (Bool-cases (
          leb (levenshtein_distance target c) threshold
          && ltb (levenshtein_distance target c) (byte_len target))) [
            | inl near ↦
                rw (better, near)
                  (
                    refl,
                    (record { within = ground (arith, near); shorter = ground (arith, near) }, p),
                  )
            | inr far ↦ rw (better, far) tt
          ]
    better-IsMatch c (some (s, d)) p m =
        elim (Bool-cases (
          leb (levenshtein_distance target c) threshold
          && ltb (levenshtein_distance target c) (byte_len target))) [
            | inl near ↦ elim (Bool-cases (ltb (levenshtein_distance target c) d)) [
              | inl nearer ↦
                  rw (better, near, nearer)
                    (
                      refl,
                      (record { within = ground (arith, near); shorter = ground (arith, near) }, p),
                    )
              | inr as_near ↦ rw (better, near, as_near) m
            ]
            | inr far ↦ rw (better, far) m
          ]

    best_match-IsMatch :
        (cs : List Text) (best : Option (Text × ℕ))
        → All P cs
        → IsMatch best
        → IsMatch (best_match target threshold cs best)
    unfolding best_match
    best_match-IsMatch [] best p m = m
    best_match-IsMatch (c ∷ cs) best p m =
        best_match-IsMatch cs (better target threshold c best) p.1 (better-IsMatch c best p.0 m)

  Mem-All : (cs ds : List Text) → ((c : Text) → Mem c cs → Mem c ds) → All (λ c. Mem c ds) cs
  Mem-All [] ds v = tt
  Mem-All (c ∷ cs) ds v = (v c mem-cons_self, Mem-All cs ds (λ d m. v d (mem-cons_of_mem _ m)))

  -- What a suggestion promises: none is made only if no candidate is near, and else it is a near
  -- candidate, and no near candidate is nearer.
  unfoldable pub IsNearest : List Text → Option Text → Type 0
  IsNearest candidates none = All (λ c. IsNear c → ⊥) candidates
  IsNearest candidates (some name) =
      Mem name candidates
      × (IsNear name
          × All (λ c. IsNear c → levenshtein_distance target name ≤ levenshtein_distance target c)
              candidates)

  far_from_all :
      (cs : List Text)
      → All (λ c. IsNear c → suc threshold ≤ levenshtein_distance target c) cs
      → All (λ c. IsNear c → ⊥) cs
  far_from_all [] v = tt
  far_from_all (c ∷ cs) v = (λ near. omega (arith, v.0 near, near.within), far_from_all cs v.1)

  IsNearest-match :
      (candidates : List Text) (best : Option (Text × ℕ))
      → IsMatch (λ c. Mem c candidates) best
      → All (λ c. IsNear c → distance_of best ≤ levenshtein_distance target c) candidates
      → IsNearest candidates (elim best [ none ↦ none | some (s, d) ↦ some s ])
  unfolding IsNearest IsMatch distance_of
  IsNearest-match candidates none m v = far_from_all candidates v
  IsNearest-match candidates (some (s, d)) m v =
      let P : ℕ → Type 0 =
        λ n. All (λ c. IsNear c → n ≤ levenshtein_distance target c) candidates in
      (m.1.1, (m.1.0, subst P m.0 v))

  -- No name is suggested only if no candidate is near, within the threshold and by less edits than
  -- the target has bytes; else it is one of the candidates that are near, and none is nearer.
  pub find_similar-IsNearest :
      (candidates : List Text)
      → IsNearest candidates (find_similar_internal target candidates threshold)
  unfolding find_similar_internal IsMatch
  find_similar-IsNearest candidates =
      IsNearest-match candidates (best_match target threshold candidates none)
        (best_match-IsMatch (λ c. Mem c candidates) candidates none
          (Mem-All candidates candidates (λ c m. m)) tt)
        (best_match-IsNear candidates none)
