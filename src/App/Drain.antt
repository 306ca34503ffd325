-- ===== src/App/Drain.antt =====
-- `RequestDrain` of src/app/drain.rs. The semaphore is that of the async runtime: an interface.
pub mod Count
pub mod Await
use nano_rs.Common.{
  ℕ, suc, ◌+◌, ◌-◌, ◌*◌, ◌%◌, ◌^◌, ◌≡◌, Bool, true, false, List, [], ◌∷◌, ltb, ◌==◌, if◌then◌else◌,
}

-- A semaphore. The permit of a call that acquires one comes back when the call is over, so what
-- counts is whether there is one.
pub record Semaphore : Type 1 where
  pub State : Type 0
  pub new : State
  pub add_permit : State → State
  pub available : State → Bool
  pub new-available : available new ≡ false
  pub add_permit-available : (s : State) → available (add_permit s) ≡ true

-- What other requests do while a call waits: they start and complete.
pub data Event : Type 0 where
  started completed : Event

module _ (S : Semaphore) where
  pub record RequestDrain : Type 0 where
    pub active_requests : ℕ
    pub drain_semaphore : S.State

  unfoldable pub new : RequestDrain
  new = record { active_requests = 0; drain_semaphore = S.new }

  unfoldable pub request_started : RequestDrain → RequestDrain
  request_started d = record d { active_requests = (d.active_requests + 1) % 2 ^ 64 }

  -- The count before, as `fetch_sub` gives it, decides.
  unfoldable pub request_completed : RequestDrain → RequestDrain
  request_completed d =
      let d' = record d { active_requests = (d.active_requests + 2 ^ 64 - 1) % 2 ^ 64 } in
      if d.active_requests == 1
      then record d' { drain_semaphore = S.add_permit d.drain_semaphore }
      else d'

  unfoldable pub step : RequestDrain → Event → RequestDrain
  step d started = request_started d
  step d completed = request_completed d

  unfoldable pub run : RequestDrain → List Event → RequestDrain
  run d [] = d
  run d (e ∷ es) = run (step d e) es

  -- The wait for a permit, over the events before the timeout.
  unfoldable pub acquire : RequestDrain → List Event → Bool
  acquire d [] = S.available d.drain_semaphore
  acquire d (e ∷ es) =
      let rest = acquire (step d e) es in if S.available d.drain_semaphore then true else rest

  unfoldable pub await_complete : RequestDrain → List Event → Bool
  await_complete d es = if d.active_requests == 0 then true else acquire d es

  -- The count is read before each sleep of `poll_interval`, while less than `timeout` has passed;
  -- `rounds` gives the events of each sleep.
  unfoldable pub await_complete_polling : RequestDrain → List (List Event) → Bool × RequestDrain
  await_complete_polling d [] = (d.active_requests == 0, d)
  await_complete_polling d (es ∷ rounds) =
      let rest = await_complete_polling (run d es) rounds in
      if d.active_requests == 0 then (true, d) else rest
