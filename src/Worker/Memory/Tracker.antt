-- ===== src/Worker/Memory/Tracker.antt =====
-- The growth of the heap during a request.
use nano_rs.Common.{ℕ, ◌+◌, ◌-◌, ◌*◌, ◌≤◌, ◌≡◌, ◌↔◌, Text, ◌==◌, if◌then◌else◌, arith}
use nano_rs.Worker.Memory.{
  HeapStatistics, within, new_tracker, start, current_growth_bytes, check_limit,
}

-- A request that the tracker has seen begin is within its limit, with the exact growth, exactly if
-- the heap in use has grown by no more than the limit; 0 MB stands for 16 MB.
pub check_limit-start :
    (limit_mb : ℕ) (hostname : Text) (begun now : HeapStatistics)
    → let t = start begun (new_tracker limit_mb hostname) in
      (check_limit now t ≡ within (now.used_heap_size - begun.used_heap_size)) ↔ (
        now.used_heap_size
        ≤ begun.used_heap_size + (if limit_mb == 0 then 16 else limit_mb) * 1024 * 1024)
unfolding check_limit start new_tracker current_growth_bytes
check_limit-start limit_mb hostname begun now = (λ e. ground (arith, e), λ h. ground (arith, h))
