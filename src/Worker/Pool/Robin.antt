-- ===== src/Worker/Pool/Robin.antt =====
-- The workers that `dispatch` of src/worker/tenant_pool.rs chooses.
use nano_rs.Common.{
  ℕ, zero, suc, ◌+◌, ◌-◌, ◌%◌, ◌^◌, ◌≤◌, ◌<◌, ◌≡◌, refl, sym, ap, ◌∙◌, inl, inr, true, false, some,
  List, [], ◌∷◌, ◌++◌, length, length-append, All, arith, ◌==◌, Bool-cases, leb, ltb, if◌then◌else◌,
}
use native.Mathlib.Nat.{mod-lt, mod_self, mod-eq_of_lt, mod-add-mod}
use nano_rs.Worker.Pool.{Worker, send, send_at, sent, refused, panicked, TenantPool, dispatch}

-- A worker whose sender is there and whose thread runs.
pub record IsAlive (w : Worker) : Type 0 where
  pub sender : w.sender ≡ true
  pub running : w.ended ≡ false

-- The tasks of the worker at an index.
unfoldable pub tasks_at : ℕ → List Worker → List ℕ
tasks_at i [] = []
tasks_at zero (w ∷ ws) = w.tasks
tasks_at (suc i) (w ∷ ws) = tasks_at i ws

-- Dispatches one behind the other.
unfoldable pub run : TenantPool → List ℕ → TenantPool
run p [] = p
run p (t ∷ ts) = elim (dispatch t p) [ sent p' ↦ run p' ts | refused p' ↦ run p' ts | panicked ↦ p ]

-- What a send to a worker that is there does.
record Added (i task : ℕ) (ws : List Worker) : Type 0 where
  result : List Worker
  done : send_at i task ws ≡ some (result, true)
  alive : All IsAlive result
  same_length : length result ≡ length ws
  tasks :
      (j : ℕ)
      → j < length ws
      → length (tasks_at j result) ≡ length (tasks_at j ws) + (if i == j then 1 else 0)

Added-cons :
    (i task : ℕ) (w : Worker) (ws : List Worker)
    → IsAlive w
    → Added i task ws
    → Added (suc i) task (w ∷ ws)
unfolding send_at tasks_at
Added-cons i task w ws v a = record {
  result = w ∷ a.result;
  done = rw (send_at, a.done) refl;
  alive = (v, a.alive);
  same_length = ap suc a.same_length;
  tasks = at;
}
  where
    at :
        (j : ℕ)
        → j < length (w ∷ ws)
        → length (tasks_at j (w ∷ a.result))
          ≡ length (tasks_at j (w ∷ ws)) + (if suc i == j then 1 else 0)
    at zero k = ground arith
    at (suc j) k = ground (arith, a.tasks j)

send_at-alive : (i task : ℕ) (ws : List Worker) → i < length ws → All IsAlive ws → Added i task ws
unfolding send_at send tasks_at
send_at-alive i task [] h v = absurd (omega arith)
send_at-alive zero task (w ∷ ws) h v = record {
  result = record w { tasks = w.tasks ++ (task ∷ []) } ∷ ws;
  done = rw (send_at, send, v.0.running) refl;
  alive = (record { sender = v.0.sender; running = v.0.running }, v.1);
  same_length = refl;
  tasks = at;
}
  where
    at :
        (j : ℕ)
        → j < length (w ∷ ws)
        → length (tasks_at j (record w { tasks = w.tasks ++ (task ∷ []) } ∷ ws))
          ≡ length (tasks_at j (w ∷ ws)) + (if 0 == j then 1 else 0)
    at zero k = omega (arith, length-append w.tasks (task ∷ []))
    at (suc j) k = ground arith
send_at-alive (suc i) task (w ∷ ws) h v =
    Added-cons i task w ws v.0 (send_at-alive i task ws (omega arith) v.1)

-- How often `n` dispatches from count `c` on choose index `i` of `l`.
unfoldable pub hits : ℕ → ℕ → ℕ → ℕ → ℕ
hits l c i zero = 0
hits l c i (suc n) = (if c % l == i then 1 else 0) + hits l (c + 1) i n

next_mod : (l c : ℕ) → 0 < l → (c + 1) % l ≡ (if c % l + 1 == l then 0 else c % l + 1)
next_mod l c h = elim (Bool-cases (c % l + 1 == l)) [
  | inl last ↦ rw last (omega (arith, mod-add-mod c l 1, ends c l last))
  | inr more ↦ rw more (sym (mod-add-mod c l 1) ∙ mod-eq_of_lt (below (c % l) l (mod-lt c h) more))
]
  where
    ends : (c l : ℕ) → (c % l + 1 == l) ≡ true → (c % l + 1) % l ≡ 0
    ends c l e = let full : c % l + 1 ≡ l = ground arith in ap (λ x. x % l) full ∙ mod_self l

    below : (r l : ℕ) → r < l → (r + 1 == l) ≡ false → r + 1 < l
    below r l k e = ground arith

-- The number of dispatches before index `i` is chosen, where `r` is next.
abbrev wait : ℕ → ℕ → ℕ → ℕ
wait l r i = if leb r i then i - r else i + l - r

turn :
    (l r i n : ℕ)
    → i < l
    → suc n ≤ l
    → r < l
    → (if r == i then 1 else 0)
        + (if ltb (wait l (if r + 1 == l then 0 else r + 1) i) n then 1 else 0)
      ≡ (if ltb (wait l r i) (suc n) then 1 else 0)
turn l r i n h k m = ground arith

hits-wait :
    (l c i n : ℕ) → i < l → n ≤ l → hits l c i n ≡ (if ltb (wait l (c % l) i) n then 1 else 0)
unfolding hits
hits-wait l c i zero h k = ground arith
hits-wait l c i (suc n) h k =
    rw (hits-wait l (c + 1) i n h (omega arith), next_mod l c (omega arith))
      (turn l (c % l) i n h k (mod-lt c (omega arith)))

below_pos : (i l : ℕ) → i < l → 0 < l
below_pos i l h = omega arith

hits-all : (l c i : ℕ) → i < l → hits l c i l ≡ 1
hits-all l c i h = hits-wait l c i l h (omega arith) ∙ ground (arith, mod-lt c (below_pos i l h))

-- The pool between dispatches: its workers are alive, and there are `l`.
record IsOpen (l : ℕ) (p : TenantPool) : Type 0 where
  count : length p.workers ≡ l
  alive : All IsAlive p.workers

dispatch-IsOpen :
    (l t i : ℕ) (p : TenantPool)
    → 0 < l
    → i < l
    → p.next_worker + 1 < 2 ^ 64
    → IsOpen l p
    → (p' : TenantPool) × (dispatch t p ≡ sent p')
      × IsOpen l p'
      × (p'.next_worker ≡ p.next_worker + 1)
      × (length (tasks_at i p'.workers)
          ≡ length (tasks_at i p.workers) + (if p.next_worker % l == i then 1 else 0))
unfolding dispatch
dispatch-IsOpen l t i p h k few v =
    let a = send_at-alive (p.next_worker % length p.workers) t p.workers at_index v.alive in
    (
      record p { workers = a.result; next_worker = (p.next_worker + 1) % 2 ^ 64 },
      rw (dispatch, some_worker (length p.workers) l h v.count, a.done) refl,
      record { count = a.same_length ∙ v.count; alive = a.alive },
      mod-eq_of_lt few,
      a.tasks i (omega (arith, v.count))
          ∙ ap (λ m. length (tasks_at i p.workers) + (if p.next_worker % m == i then 1 else 0))
              v.count,
    )
  where
    some_worker : (n l : ℕ) → 0 < l → n ≡ l → (n == 0) ≡ false
    some_worker n l h e = ground arith

    at_index : p.next_worker % length p.workers < length p.workers
    at_index = mod-lt p.next_worker (omega (arith, v.count))

run-hits :
    (l i : ℕ) (p : TenantPool) (ts : List ℕ)
    → 0 < l
    → i < l
    → p.next_worker + length ts < 2 ^ 64
    → IsOpen l p
    → length (tasks_at i (run p ts).workers)
      ≡ length (tasks_at i p.workers) + hits l p.next_worker i (length ts)
unfolding run hits
run-hits l i p [] h k few v = omega arith
run-hits l i p (t ∷ ts) h k few v =
    let (p', step, v', next, one) = dispatch-IsOpen l t i p h k (omega arith) v in
    rw (run, step)
      (regroup _ _ _ _ _ _ one (ap (λ c. hits l c i (length ts)) next)
        (run-hits l i p' ts h k (omega (arith, next)) v'))
  where
    regroup : (a b c d e x : ℕ) → a ≡ b + c → d ≡ e → x ≡ a + d → x ≡ b + (c + e)
    regroup a b c d e x f g h = omega arith

-- In a pool of `l` workers that are alive, `l` dispatches in a row give each worker one task.
pub run_fair :
    (i : ℕ) (p : TenantPool) (ts : List ℕ)
    → All IsAlive p.workers
    → i < length p.workers
    → length ts ≡ length p.workers
    → p.next_worker + length ts < 2 ^ 64
    → length (tasks_at i (run p ts).workers) ≡ length (tasks_at i p.workers) + 1
run_fair i p ts alive k round few =
    run-hits (length p.workers) i p ts (omega arith) k few (record { count = refl; alive = alive })
    ∙ ap (λ n. length (tasks_at i p.workers) + n)
        (ap (hits (length p.workers) p.next_worker i) round
          ∙ hits-all (length p.workers) p.next_worker i k)
