-- ===== src/App/Drain/Await.antt =====
-- `await_complete` of `RequestDrain`, the wait on the semaphore.
use nano_rs.Common.{
  ℕ, zero, suc, ◌+◌, ◌^◌, ◌<◌, ◌≡◌, refl, true, List, [], ◌∷◌, ◌++◌, length, ◌==◌, if◌then◌else◌,
  arith,
}
use nano_rs.App.Drain.{
  Semaphore, RequestDrain, Event, started, completed, step, run, request_started, request_completed,
  acquire, await_complete,
}
use nano_rs.App.Drain.Count.{Proper, left, started-active, completed-active}

abbrev pub repeat_started : ℕ → List Event
repeat_started zero = []
repeat_started (suc n) = started ∷ repeat_started n

module _ (S : Semaphore) where
  -- A permit that is there stays.
  step-available :
      (d : RequestDrain S) (e : Event)
      → S.available d.drain_semaphore ≡ true
      → S.available (step S d e).drain_semaphore ≡ true
  unfolding step request_started request_completed
  step-available d started h = h
  step-available d completed h = ground (arith, h, S.add_permit-available d.drain_semaphore)

  run-available :
      (d : RequestDrain S) (es : List Event)
      → S.available d.drain_semaphore ≡ true
      → S.available (run S d es).drain_semaphore ≡ true
  unfolding run
  run-available d [] h = h
  run-available d (e ∷ es) h = run-available (step S d e) es (step-available d e h)

  last-available :
      (d : RequestDrain S)
      → d.active_requests ≡ 1
      → S.available (step S d completed).drain_semaphore ≡ true
  unfolding step request_completed
  last-available d h = ground (arith, h, S.add_permit-available d.drain_semaphore)

  acquire_available :
      (d : RequestDrain S) (es : List Event)
      → S.available d.drain_semaphore ≡ true
      → acquire S d es ≡ true
  unfolding acquire
  acquire_available d [] h = h
  acquire_available d (e ∷ es) h = ground (arith, h)

  acquire-cons :
      (d : RequestDrain S) (e : Event) (es : List Event)
      → acquire S (step S d e) es ≡ true
      → acquire S d (e ∷ es) ≡ true
  unfolding acquire
  acquire-cons d e es h = ground (arith, h)

  acquire_drained :
      (es later : List Event) (d : RequestDrain S) (n : ℕ)
      → d.active_requests ≡ suc n
      → Proper (suc n) es
      → suc n + length es < 2 ^ 64
      → left (suc n) es ≡ 0
      → acquire S d (es ++ later) ≡ true
  acquire_drained [] later d n e p h z = absurd (omega (arith, z))
  acquire_drained (started ∷ es) later d n e p h z =
      let first : (step S d started).active_requests ≡ d.active_requests + 1 =
        started-active S d (omega (arith, e, h)) in
      let rest =
        acquire_drained es later (step S d started) (suc n) (omega (arith, first, e)) p
          (omega (arith, h)) z in
      acquire-cons d started (es ++ later) rest
  acquire_drained (completed ∷ es) later d zero e p h z =
      let there = last-available d e in
      acquire-cons d completed (es ++ later)
        (acquire_available (step S d completed) (es ++ later) there)
  acquire_drained (completed ∷ es) later d (suc n) e p h z =
      let rest =
        acquire_drained es later (step S d completed) n
          (completed-active S d (suc n) e (omega (arith, h))) p (omega (arith, h)) z in
      acquire-cons d completed (es ++ later) rest

  -- If the requests in flight come to an end before the timeout, the wait says so, whatever comes
  -- after.
  pub await_complete-drained :
      (d : RequestDrain S) (es later : List Event)
      → Proper d.active_requests es
      → d.active_requests + length es < 2 ^ 64
      → left d.active_requests es ≡ 0
      → await_complete S d (es ++ later) ≡ true
  unfolding await_complete
  await_complete-drained d es later p h z = go d.active_requests refl
    where
      go :
          (n : ℕ)
          → d.active_requests ≡ n
          → (if d.active_requests == 0 then true else acquire S d (es ++ later)) ≡ true
      go zero e = ground (arith, e)
      go (suc n) e =
          let rest = acquire_drained es later d n e (rw (← e) p) (rw (← e) h) (rw (← e) z) in
          ground (arith, rest)

  started-run :
      (k : ℕ) (d : RequestDrain S)
      → d.active_requests + k < 2 ^ 64
      → (run S d (repeat_started k)).active_requests ≡ d.active_requests + k
  unfolding run
  started-run zero d h = omega arith
  started-run (suc k) d h =
      let first : (step S d started).active_requests ≡ d.active_requests + 1 =
        started-active S d (omega (arith, h)) in
      let rest = started-run k (step S d started) (omega (arith, first, h)) in
      omega (arith, first, rest)

  -- Once the requests have come to an end, the wait says so for ever: with any number of requests
  -- in flight again it returns at once, as if all were done.
  pub await_complete_stale :
      (d : RequestDrain S) (k : ℕ) (es : List Event)
      → d.active_requests ≡ 1
      → k < 2 ^ 64
      → let again = run S d (completed ∷ repeat_started k) in
        (again.active_requests ≡ k) × (await_complete S again es ≡ true)
  unfolding run await_complete
  await_complete_stale d k es one small =
      let there = last-available d one in
      let ended : (step S d completed).active_requests ≡ 0 =
        completed-active S d 0 one (omega arith) in
      let count = started-run k (step S d completed) (omega (arith, ended, small)) in
      let still = run-available (step S d completed) (repeat_started k) there in
      let waits = acquire_available (run S (step S d completed) (repeat_started k)) es still in
      (omega (arith, count, ended), ground (arith, waits))
