-- ===== src/Metrics/Counters.antt =====
-- `Counter` of src/metrics/types.rs: 64 bits that wrap around.
use nano_rs.Common.{ℕ, ◌+◌, ◌%◌, ◌^◌}

pub record Counter : Type 0 where
  pub value : ℕ

abbrev pub new : Counter
new = record { value = 0 }

unfoldable pub inc_by : ℕ → Counter → Counter
inc_by v c = record { value = (c.value + v) % 2 ^ 64 }

abbrev pub inc : Counter → Counter
inc c = inc_by 1 c

abbrev pub reset : Counter → Counter
reset c = record { value = 0 }
