-- ===== src/Worker/Tests/Pools.antt =====
-- The theorems on the pools of workers and on their timers at concrete values.
use nano_rs.Common.{
  ℕ, ◌+◌, ◌≤◌, ◌≡◌, refl, ◌≢◌, true, false, some, [], ◌∷◌, ◌++◌, length, leb, arith,
}
use nano_rs.Worker.Pool.{fresh, TenantPool, drop_joins, shutdown_joins, dispatch, send_at, send}
use nano_rs.Worker.Pool.Robin.{IsAlive, tasks_at, run, run_fair}
use nano_rs.Worker.Pool.Join.{drop_hangs, shutdown_ends}
use nano_rs.Worker.Pool.Sockets.{requested, begun, repeat, accepted, requests_over}
use nano_rs.Worker.Pool.Sockets
use nano_rs.Config.App.{default_limits}
use nano_rs.Config.App.Valid.{IsLimits}
use nano_rs.Worker.Timeout.{Timers, Moment, with_config, default_config, race, finished}
use nano_rs.Worker.Timeout.Race.{race-ne-finished}

fresh-IsAlive : IsAlive fresh
fresh-IsAlive = record { sender = refl; running = refl }

abbrev three : TenantPool
three = record {
  workers = fresh ∷ fresh ∷ fresh ∷ [];
  next_worker = 7;
  ws_workers = [];
  ws_busy = 0;
  max_ws_connections = 1;
}

run_fair_example :
    length (tasks_at 2 (run three (4 ∷ 5 ∷ 6 ∷ [])).workers) ≡ length (tasks_at 2 three.workers) + 1
unfolding tasks_at
run_fair_example =
    run_fair 2 three (4 ∷ 5 ∷ 6 ∷ []) (fresh-IsAlive, (fresh-IsAlive, (fresh-IsAlive, tt)))
      (omega arith) refl (omega arith)

-- The eighth dispatch goes to the second worker.
eighth : tasks_at 1 (run three (4 ∷ [])).workers ≡ 4 ∷ []
unfolding run dispatch send_at send tasks_at
eighth = refl

drop_hangs_example : drop_joins 1000 (fresh ∷ fresh ∷ []) ≡ false
drop_hangs_example = drop_hangs 1000 fresh (fresh ∷ []) fresh-IsAlive

shutdown_ends_example :
    shutdown_joins 3 (record { tasks = 1 ∷ 2 ∷ []; sender = true; ended = false } ∷ fresh ∷ [])
    ≡ true
shutdown_ends_example =
    shutdown_ends 3 (record { tasks = 1 ∷ 2 ∷ []; sender = true; ended = false } ∷ fresh ∷ [])
      (omega arith, (omega arith, tt))

requests_over_example :
    (accepted three (repeat 5 requested ++ repeat 5 (λ _. begun)) ≡ 5)
    × ((Sockets.run three (repeat 5 requested ++ repeat 5 (λ _. begun))).ws_busy ≡ 0 + 5)
requests_over_example = requests_over 5 three (omega arith) tt

leb_in_order : (d d' now : ℕ) → d ≤ d' → leb d' now ≡ true → leb d now ≡ true
leb_in_order d d' now h e = ground arith

-- A sleep is over from its deadline on.
abbrev exact : Timers
exact = record { is_over = leb; in_order = leb_in_order }

abbrev at_7_ms : Moment ℕ
at_7_ms = record {
  began = 0;
  now = 7000;
  signaled = false;
  polled = some 42;
  reading = record { wall = some 7000; thread_cpu = some 10 };
}

race-ne-finished_example :
    race exact
      (record { cpu_micros = 0; wall_micros = 0 })
      0
      30000000
      (with_config default_config)
      (at_7_ms ∷ [])
    ≢ finished 42
race-ne-finished_example =
    race-ne-finished exact (record { cpu_micros = 0; wall_micros = 0 }) 0 30000000
      (with_config default_config) (at_7_ms ∷ []) 42

default-IsLimits : IsLimits default_limits
default-IsLimits = record {
  memory = omega arith;
  timeout = omega arith;
  workers = omega arith;
  cpu = omega arith;
}
