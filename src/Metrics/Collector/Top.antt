-- ===== src/Metrics/Collector/Top.antt =====
-- Which tenants the collector shows as the greatest.
use mathlib.Core.List.{Perm}
use nano_rs.Common.{
  ℕ, zero, suc, ◌≢◌, All-take, length-take-le, ◌≤◌, ◌≡◌, Bool, true, false, List, [], ◌∷◌, ◌++◌,
  Text, length, map, take, leb, All, arith,
}
use nano_rs.Eviction.Sort.{
  drop, take-append-drop, length-take, sort_by, sort_by-perm, sort_by-IsSorted, IsSorted,
  IsSorted-split,
}
use nano_rs.Metrics.Counters.{Counter}
use nano_rs.Metrics.Histograms.{Floats}
use nano_rs.Metrics.Tenant.{TenantMetrics}
use nano_rs.Metrics.Collector.{TenantMetricsCollector, top_tenants}

-- The first of two rows is at least as great.
abbrev pub at_least : Text × ℕ → Text × ℕ → Bool
at_least a b = leb b.1 a.1

-- Rows that are shown and the rest of them: those shown are in order, none of the rest is greater
-- than any of them, and fewer than `n` are shown only if that is all.
pub record IsTop (n : ℕ) (rows shown rest : List (Text × ℕ)) : Type 0 where
  pub all : Perm (shown ++ rest) rows
  pub sorted : IsSorted at_least shown
  pub greatest : All (λ a. All (λ b. at_least a b ≡ true) rest) shown
  pub few : length shown ≤ n
  pub enough : rest ≢ [] → length shown ≡ n

at_least_total : (a b : Text × ℕ) → at_least a b ≡ false → at_least b a ≡ true
at_least_total a b h = ground arith

at_least_trans :
    (a b c : Text × ℕ) → at_least a b ≡ true → at_least b c ≡ true → at_least a c ≡ true
at_least_trans a b c h k = ground arith

take-IsSorted :
    (n : ℕ) (rows : List (Text × ℕ)) → IsSorted at_least rows → IsSorted at_least (take n rows)
take-IsSorted zero rows s = tt
take-IsSorted (suc n) [] s = tt
take-IsSorted (suc n) (a ∷ rows) s = (All-take _ n rows s.0, take-IsSorted n rows s.1)

-- The rows of all tenants, by a counter.
abbrev pub rows_by :
    (f : Floats) → (TenantMetrics f → Counter) → TenantMetricsCollector f → List (Text × ℕ)
rows_by f read c = map (λ entry. (entry.0, (read entry.1).value)) c.tenants

-- What `top_tenants` shows are rows of the tenants in descending order, as many as asked for or
-- else all, and none that is left out is greater.
pub top_tenants-IsTop :
    (f : Floats) (read : TenantMetrics f → Counter) (n : ℕ) (c : TenantMetricsCollector f)
    → (rest : List (Text × ℕ)) × IsTop n (rows_by f read c) (top_tenants f read n c) rest
unfolding top_tenants
top_tenants-IsTop f read n c =
    let sorted = sort_by at_least (rows_by f read c) in
    let in_order = sort_by-IsSorted at_least at_least_total at_least_trans (rows_by f read c) in
    (
      drop n sorted,
      record {
        all = rw (take-append-drop n sorted) (sort_by-perm at_least (rows_by f read c));
        sorted = take-IsSorted n sorted in_order;
        greatest = IsSorted-split at_least n sorted in_order;
        few = length-take-le n sorted;
        enough = length-take n sorted;
      },
    )
