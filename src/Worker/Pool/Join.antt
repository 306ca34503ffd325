-- ===== src/Worker/Pool/Join.antt =====
-- The end of the pools: `Drop` of src/worker/tenant_pool.rs and `shutdown` of src/worker/pool.rs.
use nano_rs.Common.{
  ℕ, zero, suc, ◌+◌, ◌<◌, ◌≡◌, refl, true, false, List, [], ◌∷◌, length, All, arith, ◌⊎◌,
}
use nano_rs.Worker.Pool.{Worker, thread_step, join, drop_joins, shutdown_joins}
use nano_rs.Worker.Pool.Robin.{IsAlive}

step-IsAlive : (w : Worker) → IsAlive w → IsAlive (thread_step w)
unfolding thread_step
step-IsAlive w v = record {
  sender = ground (arith, v.sender, v.running);
  running = ground (arith, v.sender, v.running);
}

join-alive : (n : ℕ) (w : Worker) → IsAlive w → join n w ≡ false
unfolding join
join-alive zero w v = v.running
join-alive (suc n) w v = ground (arith, v.running, join-alive n (thread_step w) (step-IsAlive w v))

-- The drop of a pool with a worker that is alive never ends: however many steps their threads take,
-- they are not all joined.
pub drop_hangs : (n : ℕ) (w : Worker) (ws : List Worker) → IsAlive w → drop_joins n (w ∷ ws) ≡ false
unfolding drop_joins
drop_hangs n w ws v = ground (arith, join-alive n w v)

join-ended : (n : ℕ) (w : Worker) → w.ended ≡ true → join n w ≡ true
unfolding join
join-ended zero w e = e
join-ended (suc n) w e = ground (arith, e)

step_sender : (w : Worker) → w.sender ≡ false → (thread_step w).sender ≡ false
unfolding thread_step
step_sender w gone = ground (arith, gone)

step-gone :
    (w : Worker)
    → w.sender ≡ false
    → ((thread_step w).ended ≡ true) ⊎ (length (thread_step w).tasks + 1 ≡ length w.tasks)
unfolding thread_step
step-gone w gone = ground (arith, gone)

join-gone : (n : ℕ) (w : Worker) → w.sender ≡ false → length w.tasks < n → join n w ≡ true
unfolding join
join-gone zero w gone h = absurd (omega arith)
join-gone (suc n) w gone h = ground (
  arith,
  gone,
  h,
  step-gone w gone,
  join-ended n (thread_step w),
  join-gone n (thread_step w) (step_sender w gone),
)

-- The shutdown of a pool ends: with a step for each task in the channel of a worker, and one more,
-- every thread is joined.
pub shutdown_ends :
    (n : ℕ) (ws : List Worker) → All (λ w. length w.tasks < n) ws → shutdown_joins n ws ≡ true
unfolding shutdown_joins
shutdown_ends n [] h = refl
shutdown_ends n (w ∷ ws) h =
    ground (arith, join-gone n (record w { sender = false }) refl h.0, shutdown_ends n ws h.1)
