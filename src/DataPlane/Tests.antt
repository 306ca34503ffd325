-- ===== src/DataPlane/Tests.antt =====
-- The theorems on the cache at concrete disks.
use nano_rs.Common.{ℕ, refl, some, [], ◌∷◌, Text, bytes, arith}
use nano_rs.DataPlane.{Disk, CodeCache}
use nano_rs.DataPlane.Coherence.{IsTimed}

-- A disk on which every file changed last at `t`, and holds just that.
abbrev written_at : ℕ → Disk
written_at t = record { read_to_string = λ _. some (t ∷ []); modified = λ _. some t }

abbrev content : Text → ℕ → Text
content _ t = t ∷ []

written_at-IsTimed : (t : ℕ) → IsTimed content (written_at t)
written_at-IsTimed t = record { readable = λ p u e. ground (arith, e); timed = λ p c e. (t, refl) }

abbrev app : Text
app = bytes "app.js"

abbrev warm : CodeCache
warm = some ((app, record { code = 3 ∷ []; modified = 3 }) ∷ [])
