-- ===== src/Vfs/Memory/History.antt =====
-- Any series of writes, deletions and clears of a backend.
use nano_rs.Common.{ℕ, ◌≡◌, refl, List, [], ◌∷◌, Text}
use nano_rs.Vfs.Types.{ResourceLimits, VfsResult, ok, err}
use nano_rs.Vfs.Memory.{MemoryBackend, with_limits, write, delete, clear}
use nano_rs.Vfs.Memory.Invariant.{
  IsConsistent, IsWord32, with_limits-IsConsistent, write-IsConsistent, delete-IsConsistent,
  clear-IsConsistent,
}

-- Operations, and the backend after a series of them: one that fails leaves it as it was.
pub data Op : Type 0 where
  writes : ℕ → Text → List ℕ → Op
  deletes : Text → Op
  clears : Op

after : MemoryBackend → VfsResult MemoryBackend → MemoryBackend
after b (ok b') = b'
after b (err _) = b

pub step : MemoryBackend → Op → MemoryBackend
unfolding after
step b (writes now path content) = after b (write now b path content)
step b (deletes path) = after b (delete b path)
step b clears = clear b

pub run : MemoryBackend → List Op → MemoryBackend
run b [] = b
run b (op ∷ ops) = run (step b op) ops

after-IsConsistent :
    (b : MemoryBackend) (r : VfsResult MemoryBackend)
    → IsConsistent b
    → ((b' : MemoryBackend) → r ≡ ok b' → IsConsistent b')
    → IsConsistent (after b r)
unfolding after
after-IsConsistent b (ok b') v h = h b' refl
after-IsConsistent b (err x) v h = v

step-IsConsistent : (b : MemoryBackend) (op : Op) → IsConsistent b → IsConsistent (step b op)
unfolding step
step-IsConsistent b (writes now path content) v =
    after-IsConsistent b _ v (λ b' e. write-IsConsistent now b b' path content v e)
step-IsConsistent b (deletes path) v =
    after-IsConsistent b _ v (λ b' e. delete-IsConsistent b b' path v e)
step-IsConsistent b clears v = clear-IsConsistent b v

run-IsConsistent : (b : MemoryBackend) (ops : List Op) → IsConsistent b → IsConsistent (run b ops)
unfolding run
run-IsConsistent b [] v = v
run-IsConsistent b (op ∷ ops) v = run-IsConsistent (step b op) ops (step-IsConsistent b op v)

-- After any series of operations on a new backend the counters are exact and the quotas hold.
pub run-with_limits :
    (l : ResourceLimits) (ops : List Op) → IsWord32 l → IsConsistent (run (with_limits l) ops)
run-with_limits l ops w = run-IsConsistent (with_limits l) ops (with_limits-IsConsistent l w)
