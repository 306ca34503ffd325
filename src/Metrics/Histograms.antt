-- ===== src/Metrics/Histograms.antt =====
-- `Histogram` of src/metrics/types.rs, over the floats of 64 bits.
pub mod Fill
use nano_rs.Common.{ℕ, ◌+◌, ◌%◌, ◌^◌, Bool, List, [], ◌∷◌, map, if◌then◌else◌}
use nano_rs.Eviction.Sort.{sort_by}
use nano_rs.Metrics.Counters.{Counter, inc, inc_by}
use nano_rs.Metrics.Counters

-- What the metrics use of floats: the casts from and to integers, division, product and `<=`.
pub record Floats : Type 1 where
  pub F64 : Type 0
  pub of_u64 : ℕ → F64
  pub to_u64 : F64 → ℕ
  pub div : F64 → F64 → F64
  pub mul : F64 → F64 → F64
  pub le : F64 → F64 → Bool
  pub infinity : F64

module _ (f : Floats) where
  pub record Histogram : Type 0 where
    pub buckets : List f.F64
    pub bucket_counts : List Counter
    pub sum : Counter
    pub count : Counter

  -- The bounds are numbers; the constructor sorts them.
  unfoldable pub new : List f.F64 → Histogram
  unfolding sort_by
  new buckets =
      let sorted = sort_by f.le buckets in
      record {
        buckets = sorted;
        bucket_counts = map (λ b. Counters.new) sorted;
        sum = Counters.new;
        count = Counters.new;
      }

  -- The loop over the bounds, with their counters.
  unfoldable pub count_in : f.F64 → List f.F64 → List Counter → List Counter
  unfolding inc_by
  count_in value [] counts = counts
  count_in value (bound ∷ bounds) [] = []
  count_in value (bound ∷ bounds) (c ∷ counts) =
      let rest = count_in value bounds counts in
      if f.le value bound then inc c ∷ counts else c ∷ rest

  unfoldable pub observe : f.F64 → Histogram → Histogram
  unfolding count_in inc_by
  observe value h = record {
    buckets = h.buckets;
    bucket_counts = count_in value h.buckets h.bucket_counts;
    sum = inc_by (f.to_u64 (f.mul value (f.of_u64 1000))) h.sum;
    count = inc h.count;
  }
