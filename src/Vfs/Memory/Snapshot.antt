-- ===== src/Vfs/Memory/Snapshot.antt =====
-- `snapshot_entries` and `restore_from_snapshot`: the round trip.
use nano_rs.Common.{
  ◌≡◌, refl, List, [], ◌∷◌, none, some, Text, get, put, Distinct, Entries, get-put, str_eq_iff,
  arith,
}
use nano_rs.Vfs.Types.{VfsFile}
use nano_rs.Vfs.Path.Laws.{IsNormal, new_of_IsNormal}
use nano_rs.Vfs.Memory.{
  MemoryBackend, current_usage, metadata, clear, insert_all, valid_entries, snapshot_entries,
  restore_from_snapshot,
}
use nano_rs.Vfs.Memory.Invariant.{IsConsistent}

valid_entries_self :
    (m : List (Text × VfsFile)) → Entries (λ k _. IsNormal k) m → valid_entries m ≡ m
unfolding valid_entries
valid_entries_self [] h = refl
valid_entries_self ((k, f) ∷ m) h = ground (arith, new_of_IsNormal k h.0, valid_entries_self m h.1)

get-insert_all :
    (j : Text) (es m : List (Text × VfsFile))
    → Distinct es
    → get j (insert_all es m) ≡ (elim (get j es) [ some f ↦ some f | none ↦ get j m ])
unfolding insert_all get
get-insert_all j [] m d = refl
get-insert_all j ((k, f) ∷ es) m d =
    ground (arith, get-insert_all j es (put k f m) d.1, get-put k j f m, str_eq_iff k j, d.0)

-- A snapshot of a backend, restored in any other, gives the same files and the same counters,
-- if every key is a path in normal form.
pub restore-snapshot :
    (b c : MemoryBackend) (j : Text)
    → IsConsistent b
    → Entries (λ k _. IsNormal k) b.storage
    → let r = restore_from_snapshot c (snapshot_entries b) in
      (metadata r j ≡ metadata b j) × (current_usage r ≡ current_usage b)
unfolding restore_from_snapshot snapshot_entries metadata current_usage clear get
restore-snapshot b c j v h = rw (valid_entries_self b.storage h) (
  ground (arith, get-insert_all j b.storage [] v.distinct),
  ground (arith, v.counted, v.totalled, v.small, v.words),
)
