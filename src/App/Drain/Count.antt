-- ===== src/App/Drain/Count.antt =====
-- The count of requests in flight, and the wait that polls it.
use nano_rs.Common.{
  ℕ, zero, suc, ◌+◌, ◌^◌, ◌<◌, ◌≡◌, refl, true, inl, inr, List, [], ◌∷◌, length, ◌==◌, Bool-cases,
  arith,
}
use nano_rs.App.Drain.{
  Semaphore, RequestDrain, Event, started, completed, step, run, request_started, request_completed,
  await_complete_polling,
}

-- Of `n` requests in flight and the events to come, none completes that has not started.
abbrev pub Proper : ℕ → List Event → Type 0
Proper n [] = Unit
Proper n (started ∷ es) = Proper (suc n) es
Proper zero (completed ∷ es) = ⊥
Proper (suc n) (completed ∷ es) = Proper n es

-- How many are in flight after the events.
abbrev pub left : ℕ → List Event → ℕ
left n [] = n
left n (started ∷ es) = left (suc n) es
left zero (completed ∷ es) = left zero es
left (suc n) (completed ∷ es) = left n es

module _ (S : Semaphore) where
  pub started-active :
      (d : RequestDrain S)
      → d.active_requests + 1 < 2 ^ 64
      → (step S d started).active_requests ≡ d.active_requests + 1
  unfolding step request_started
  started-active d h = omega (arith, h)

  pub completed-active :
      (d : RequestDrain S) (n : ℕ)
      → d.active_requests ≡ suc n
      → suc n < 2 ^ 64
      → (step S d completed).active_requests ≡ n
  unfolding step request_completed
  completed-active d n e h = ground (arith, e, h)

  -- The count is the number of requests in flight, after any events in which no request completes
  -- that has not started, while it stays below the word size.
  pub active_requests-run :
      (d : RequestDrain S) (es : List Event)
      → Proper d.active_requests es
      → d.active_requests + length es < 2 ^ 64
      → (run S d es).active_requests ≡ left d.active_requests es
  unfolding run
  active_requests-run d es p h = go es d d.active_requests refl p h
    where
      go :
          (es : List Event) (d : RequestDrain S) (n : ℕ)
          → d.active_requests ≡ n
          → Proper n es
          → n + length es < 2 ^ 64
          → (run S d es).active_requests ≡ left n es
      go [] d n e p h = e
      go (started ∷ es) d n e p h =
          let next : (step S d started).active_requests ≡ suc n =
            let q = started-active d (omega (arith, e, h)) in omega (arith, q, e) in
          go es (step S d started) (suc n) next p (omega (arith, h))
      go (completed ∷ es) d zero e p h = absurd p
      go (completed ∷ es) d (suc n) e p h =
          go es (step S d completed) n (completed-active d n e (omega (arith, h))) p
            (omega (arith, h))

  -- If the wait that polls says that all is done, no request is in flight when it returns.
  pub polling-active :
      (d : RequestDrain S) (rounds : List (List Event))
      → (await_complete_polling S d rounds).0 ≡ true
      → (await_complete_polling S d rounds).1.active_requests ≡ 0
  unfolding await_complete_polling
  polling-active d [] e = ground (arith, e)
  polling-active d (es ∷ rounds) e = elim (Bool-cases (d.active_requests == 0)) [
    | inl none_left ↦ ground (arith, none_left)
    | inr some_left ↦
        let rest = polling-active (run S d es) rounds (ground (arith, e, some_left)) in
        ground (arith, some_left, rest)
  ]
