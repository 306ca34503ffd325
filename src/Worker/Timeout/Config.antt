-- ===== src/Worker/Timeout/Config.antt =====
-- The configuration of the timers of src/worker/timeout.rs.
use nano_rs.Common.{◌*◌, ◌≤◌, ◌≡◌, refl, ◌↔◌, inl, inr, none, arith, Option-cases}
use nano_rs.Config.App.{AppLimits}
use nano_rs.Config.App.Valid.{IsLimits}
use nano_rs.Worker.Timeout.{TimeoutConfig, validate, to_timeout_config, with_config}

-- The bounds of the two limits.
pub record IsBounded (c : TimeoutConfig) : Type 0 where
  pub cpu : (1 ≤ c.cpu_time_limit_ms) × (c.cpu_time_limit_ms ≤ 1000)
  pub wall : (c.cpu_time_limit_ms ≤ c.wall_clock_limit_ms) × (c.wall_clock_limit_ms ≤ 300000)

validate_iff : (c : TimeoutConfig) → (validate c ≡ none) ↔ IsBounded c
unfolding validate
validate_iff c = (λ e. ground (arith, e), λ v. ground (arith, v))

-- Whatever configuration it is given, a timer works with a CPU limit of 1 to 1000 ms and a wall
-- clock limit between that and 300 s.
pub with_config-IsBounded : (c : TimeoutConfig) → IsBounded (with_config c).config
unfolding with_config
with_config-IsBounded c = elim (Option-cases (validate c)) [
  | inl fine ↦ rw (with_config, fine) ((validate_iff c).0 fine)
  | inr (why, bad) ↦ rw (with_config, bad) (record { cpu = omega arith; wall = omega arith })
]

to_timeout_config-IsBounded : (l : AppLimits) → IsLimits l → IsBounded (to_timeout_config l)
unfolding to_timeout_config
to_timeout_config-IsBounded l v = ground (arith, v)

-- The limits of an app that the validation of src/config/app.rs accepts are those of its timer: the
-- timer does not fall back to the default, and the seconds do not wrap around.
pub with_config-to_timeout_config :
    (l : AppLimits)
    → IsLimits l
    → ((with_config (to_timeout_config l)).config ≡ to_timeout_config l)
      × ((to_timeout_config l).wall_clock_limit_ms ≡ l.timeout_secs * 1000)
unfolding with_config to_timeout_config
with_config-to_timeout_config l v = (
  rw (with_config, (validate_iff (to_timeout_config l)).1 (to_timeout_config-IsBounded l v)) refl,
  ground (arith, v.timeout),
)
