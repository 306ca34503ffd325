-- ===== src/Metrics/Tests.antt =====
-- The metrics at concrete values, with floats that are numbers of millionths.
use nano_rs.Common.{
  ℕ, ◌*◌, ◌/◌, refl, Bool, true, false, Option, none, some, List, [], ◌∷◌, bytes, leb, arith,
}
use nano_rs.Eviction.Sort.{sort_by}
use nano_rs.Metrics.Histograms.{Floats}
use nano_rs.Metrics.Tenant.{success, error}
use nano_rs.Metrics.Tenant.Counts.{Event, request, memory, context_reset}
use nano_rs.Metrics.Tenant.Latency.{IsFloat}
use nano_rs.Metrics.Collector.Apart.{Events}

-- No value is above `infinity`, which is `none`.
abbrev divided : Option ℕ → Option ℕ → Option ℕ
divided (some a) (some b) = some (a * 1000000 / b)
divided _ _ = none

abbrev multiplied : Option ℕ → Option ℕ → Option ℕ
multiplied (some a) (some b) = some (a * b / 1000000)
multiplied _ _ = none

abbrev at_most : Option ℕ → Option ℕ → Bool
at_most (some a) (some b) = leb a b
at_most a none = true
at_most none b = false

abbrev cut : Option ℕ → ℕ
cut (some a) = a / 1000000
cut none = 0

abbrev fixed : Floats
fixed = record {
  F64 = Option ℕ;
  of_u64 = λ n. some (n * 1000000);
  to_u64 = cut;
  div = divided;
  mul = multiplied;
  le = at_most;
  infinity = none;
}

abbrev events : List Event
events = request success 5000 1024 10 ∷ request error 999999 4096 900 ∷ memory 2000 3000 ∷ []

fixed-IsFloat : IsFloat fixed
unfolding sort_by
fixed-IsFloat = record {
  in_order = refl;
  within_one = λ ms short. ground (arith, short);
  cut_off = λ us short. omega (arith, short);
  part = λ n fits. omega arith;
}

abbrev records : Events
records =
    (bytes "a.io", request success 5000 1024 10)
    ∷ (bytes "b.io", request error 7000 2048 20)
    ∷ (bytes "a.io", context_reset)
    ∷ []
