-- ===== src/Metrics/Gauges.antt =====
-- `Gauge` of src/metrics/types.rs: 64 bits that wrap around in both directions.
use nano_rs.Common.{ℕ, ◌+◌, ◌-◌, ◌%◌, ◌^◌}

pub record Gauge : Type 0 where
  pub value : ℕ

abbrev pub new : Gauge
new = record { value = 0 }

abbrev pub set : ℕ → Gauge → Gauge
set v g = record { value = v }

unfoldable pub inc_by : ℕ → Gauge → Gauge
inc_by v g = record { value = (g.value + v) % 2 ^ 64 }

unfoldable pub dec_by : ℕ → Gauge → Gauge
dec_by v g = record { value = (g.value + (2 ^ 64 - v)) % 2 ^ 64 }

abbrev pub inc : Gauge → Gauge
inc g = inc_by 1 g

abbrev pub dec : Gauge → Gauge
dec g = dec_by 1 g
