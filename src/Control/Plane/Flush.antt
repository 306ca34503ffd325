-- ===== src/Control/Plane/Flush.antt =====
-- `flush_all`, tenant by tenant.
use nano_rs.Common.{◌≡◌, refl, List, [], ◌∷◌, Text, get, Distinct, Entries, str_eq_iff, arith}
use nano_rs.Control.Defs.{done, RequestBatch, PendingBatch, ControlPlane}
use nano_rs.Control.Queue.{all_batches, drain_all_batches}
use nano_rs.Control.Queue.Drain.{requests_of, waiting}
use nano_rs.Control.Plane.{flush_all}
use mathlib.Core.List.{append-nil}
use nano_rs.Control.Plane.Ready.{processed, positive-is_empty}
use nano_rs.Control.Plane.Invariant.{IsPending, IsWellFormed}

all_batches-requests :
    (t : Text) (m : List (Text × PendingBatch))
    → Distinct m
    → Entries IsPending m
    → requests_of t (all_batches m) ≡ waiting t m
unfolding all_batches requests_of waiting get
all_batches-requests t [] d h = refl
all_batches-requests t ((k, b) ∷ m) d h = ground (
  arith,
  positive-is_empty b.requests h.0.filled,
  all_batches-requests t m d.1 h.1,
  d.0,
  str_eq_iff k t,
  append-nil b.requests,
)

-- `flush_all` gives out all that waits, and leaves nothing.
pub flush_all_ok :
    (c : ControlPlane) (t : Text)
    → IsWellFormed c
    → (bs : List RequestBatch) × (c' : ControlPlane) × (flush_all c ≡ (done bs, c'))
      × (requests_of t bs ≡ waiting t c.batch_queue.pending)
      × (c'.batch_queue.pending ≡ [])
      × IsWellFormed c'
unfolding flush_all drain_all_batches
flush_all_ok c t w = (
  all_batches c.batch_queue.pending,
  processed c (all_batches c.batch_queue.pending) (record c.batch_queue { pending = [] }),
  unfold processed in ground (arith, w.ready, w.sound),
  all_batches-requests t c.batch_queue.pending w.queue.distinct w.queue.batches,
  unfold processed in refl,
  unfold processed in
      record {
        ready = w.ready;
        sound = w.sound;
        queue = record { size = w.queue.size; wait = w.queue.wait; distinct = tt; batches = tt };
        few = omega arith;
      },
)
