-- ===== src/App/Tests.antt =====
-- The theorems on the drain with a semaphore that counts its permits.
use nano_rs.Common.{Bool, zero, false, ℕ, suc, ◌≡◌, refl, true, [], ◌∷◌}
use nano_rs.App.Drain.{
  Semaphore, RequestDrain, started, completed, run, step, request_started, request_completed,
  await_complete_polling,
}

abbrev some_permit : ℕ → Bool
some_permit zero = false
some_permit (suc _) = true

abbrev permits : Semaphore
permits = record {
  State = ℕ;
  new = 0;
  add_permit = suc;
  available = some_permit;
  new-available = refl;
  add_permit-available = λ n. refl;
}

-- One request is in flight.
abbrev one : RequestDrain permits
one = record { active_requests = 1; drain_semaphore = 0 }

polling_one :
    (await_complete_polling permits one ((started ∷ []) ∷ (completed ∷ completed ∷ []) ∷ [])).0
    ≡ true
unfolding await_complete_polling run step request_started request_completed
polling_one = refl
