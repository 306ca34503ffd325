-- ===== src/Metrics/Histograms/Fill.antt =====
-- What the buckets of a histogram hold after a series of observations.
use nano_rs.Common.{
  ℕ, suc, ◌+◌, ◌%◌, ◌^◌, ◌≡◌, refl, ap, ◌∙◌, not, List, [], ◌∷◌, map, length, keep, Bool-cases, inl,
  inr, arith,
}
use nano_rs.Eviction.Sort.{sort_by}
use nano_rs.Metrics.Counters.{Counter, inc, inc_by}
use nano_rs.Metrics.Counters
use nano_rs.Metrics.Histograms.{Floats, Histogram, new, count_in, observe}

module _ (f : Floats) where
  unfoldable pub observe_all : List f.F64 → Histogram f → Histogram f
  unfolding observe
  observe_all [] h = h
  observe_all (v ∷ vs) h = observe_all vs (observe f v h)

  -- For each bound, how many of the values are at most it and above the bounds before.
  unfoldable pub fill : List f.F64 → List f.F64 → List ℕ
  fill [] values = []
  fill (b ∷ bs) values =
      length (keep (λ v. f.le v b) values) ∷ fill bs (keep (λ v. not (f.le v b)) values)

  -- The loops over the bounds for each of the values.
  count_all : List f.F64 → List f.F64 → List Counter → List Counter
  unfolding count_in
  count_all [] bounds counts = counts
  count_all (v ∷ vs) bounds counts = count_all vs bounds (count_in f v bounds counts)

  abbrev add_up : ℕ → Counter → Counter
  add_up n c = record { value = (c.value + n) % 2 ^ 64 }

  inc-add_up : (n : ℕ) (c : Counter) → inc (add_up n c) ≡ add_up (suc n) c
  unfolding inc_by
  inc-add_up n c =
      let more : ((c.value + n) % 2 ^ 64 + 1) % 2 ^ 64 ≡ (c.value + suc n) % 2 ^ 64 = omega arith in
      ap (λ v. record { value = v }) more

  count_all-bound :
      (values : List f.F64) (b : f.F64) (bs : List f.F64) (c : Counter) (n : ℕ) (cs : List Counter)
      → count_all values (b ∷ bs) (add_up n c ∷ cs)
        ≡ add_up (n + length (keep (λ v. f.le v b) values)) c
          ∷ count_all (keep (λ v. not (f.le v b)) values) bs cs
  unfolding count_all count_in inc_by
  count_all-bound [] b bs c n cs = ground arith
  count_all-bound (v ∷ vs) b bs c n cs = elim (Bool-cases (f.le v b)) [
    | inl within ↦
        let above = keep (λ x. not (f.le x b)) vs in
        let k = length (keep (λ x. f.le x b) vs) in
        let moved : suc n + k ≡ n + suc k = omega arith in
        rw within (
          ap (λ x. count_all vs (b ∷ bs) (x ∷ cs)) (inc-add_up n c)
          ∙ count_all-bound vs b bs c (suc n) cs
          ∙ ap (λ x. add_up x c ∷ count_all above bs cs) moved)
    | inr above ↦ rw above (count_all-bound vs b bs c n (count_in f v bs cs))
  ]

  count_all_none : (values : List f.F64) → count_all values [] [] ≡ []
  unfolding count_all count_in
  count_all_none [] = refl
  count_all_none (v ∷ vs) = count_all_none vs

  count_all-fill :
      (bounds values : List f.F64)
      → map (λ c. c.value) (count_all values bounds (map (λ b. Counters.new) bounds))
        ≡ map (λ n. n % 2 ^ 64) (fill bounds values)
  unfolding count_all fill
  count_all-fill [] values = ap (map (λ c. c.value)) (count_all_none values)
  count_all-fill (b ∷ bs) values =
      let above = keep (λ v. not (f.le v b)) values in
      let counts = map (λ b. Counters.new) bs in
      let k = length (keep (λ v. f.le v b) values) in
      let first : (0 + (0 + k)) % 2 ^ 64 ≡ k % 2 ^ 64 = omega arith in
      ap (map (λ c. c.value)) (count_all-bound values b bs Counters.new 0 counts)
      ∙ ap (λ x. x ∷ map (λ c. c.value) (count_all above bs counts)) first
      ∙ ap (◌∷◌ (k % 2 ^ 64)) (count_all-fill bs above)

  observe_all-count_all :
      (values : List f.F64) (h : Histogram f)
      → (observe_all values h).bucket_counts ≡ count_all values h.buckets h.bucket_counts
  unfolding observe_all observe count_all
  observe_all-count_all [] h = refl
  observe_all-count_all (v ∷ vs) h = observe_all-count_all vs (observe f v h)

  observe_all-length :
      (values : List f.F64) (h : Histogram f) (k : ℕ)
      → h.count.value ≡ k % 2 ^ 64
      → (observe_all values h).count.value ≡ (k + length values) % 2 ^ 64
  unfolding observe_all observe inc_by
  observe_all-length [] h k e = omega (arith, e)
  observe_all-length (v ∷ vs) h k e =
      omega (arith, observe_all-length vs (observe f v h) (suc k) (omega (arith, e)))

  -- After any observations each bucket of a new histogram holds how many of them are at most its
  -- bound and above those before, and the count is their number, all modulo 2^64.
  pub observe_all-fill :
      (bounds values : List f.F64)
      → (map (λ c. c.value) (observe_all values (new f bounds)).bucket_counts
          ≡ map (λ n. n % 2 ^ 64) (fill (sort_by f.le bounds) values))
        × ((observe_all values (new f bounds)).count.value ≡ length values % 2 ^ 64)
  unfolding new
  observe_all-fill bounds values = (
    ap (map (λ c. c.value)) (observe_all-count_all values (new f bounds))
        ∙ count_all-fill (sort_by f.le bounds) values,
    omega (arith, observe_all-length values (new f bounds) 0 refl),
  )
