-- ===== src/Worker/Pool/Sockets.antt =====
-- The limit of WebSocket connections in `dispatch_ws` of src/worker/tenant_pool.rs, and the worker
-- that takes up a connection, in `run_worker`.
use nano_rs.Common.{
  ℕ, zero, suc, ◌+◌, ◌-◌, ◌≤◌, ◌<◌, ◌≡◌, refl, Bool, true, false, Option, none, some, List, [], ◌∷◌,
  ◌++◌, length, All, All-append, arith, keep, not, leb, ◌∙◌, Bool-cases, inl, inr, if◌then◌else◌,
}
use nano_rs.Worker.Pool.{
  Worker, fresh, send, sent, refused, panicked, TenantPool, dispatch_ws, thread_step,
}

-- What happens to the pool: a request for a connection, a worker that takes up its connection, and
-- the end of one.
pub data Event : Type 0 where
  requested : (task : ℕ) → Event
  begun finished : Event

-- The thread of a worker runs and has a task in its channel.
abbrev pub is_waiting : Worker → Bool
is_waiting w = elim w.tasks [ [] ↦ false | _ ∷ _ ↦ not w.ended ]

-- The first worker that has a task takes it from its channel; `none` if there is no such worker. A
-- worker for WebSockets has no memory limit, so no monitor comes between.
unfoldable pub take_up : List Worker → Option (List Worker)
unfolding thread_step
take_up [] = none
take_up (w ∷ ws) =
    let rest = take_up ws in
    if is_waiting w
    then some (thread_step w ∷ ws)
    else elim rest [ none ↦ none | some ws' ↦ some (w ∷ ws') ]

-- `ws_busy` counts in the thread of the worker, when this has received the task.
unfoldable pub step : TenantPool → Event → TenantPool
unfolding take_up
step p (requested task) = elim (dispatch_ws task p) [
  | sent p' ↦ p'
  | refused p' ↦ p'
  | panicked ↦ p
]
step p begun = elim (take_up p.ws_workers) [
  | none ↦ p
  | some ws ↦ record p { ws_workers = ws; ws_busy = p.ws_busy + 1 }
]
step p finished = record p { ws_busy = p.ws_busy - 1 }

unfoldable pub run : TenantPool → List Event → TenantPool
run p [] = p
run p (e ∷ es) = run (step p e) es

-- How many requests of a series are accepted.
unfoldable pub accepts : TenantPool → Event → ℕ
accepts p (requested task) = elim (dispatch_ws task p) [ sent _ ↦ 1 | refused _ ↦ 0 | panicked ↦ 0 ]
accepts p begun = 0
accepts p finished = 0

unfoldable pub accepted : TenantPool → List Event → ℕ
accepted p [] = 0
accepted p (e ∷ es) = accepts p e + accepted (step p e) es

abbrev pub repeat : ℕ → (ℕ → Event) → List Event
repeat zero e = []
repeat (suc n) e = e n ∷ repeat n e

-- The threads of the workers run.
abbrev pub Running : List Worker → Type 0
Running = All (λ (w : Worker). w.ended ≡ false)

keep-Running : (ws : List Worker) → Running ws → keep (λ (w : Worker). not w.ended) ws ≡ ws
keep-Running [] v = refl
keep-Running (w ∷ ws) v = rw (v.0, keep-Running ws v.1) refl

-- How many workers have a task in their channel.
abbrev waiting : List Worker → ℕ
waiting [] = 0
waiting (w ∷ ws) = if is_waiting w then suc (waiting ws) else waiting ws

waiting-append :
    (ws : List Worker) (w : Worker)
    → is_waiting w ≡ true
    → waiting (ws ++ (w ∷ [])) ≡ waiting ws + 1
waiting-append [] w h = rw (h) refl
waiting-append (v ∷ ws) w h = ground (arith, waiting-append ws w h)

take_up-some :
    (n : ℕ) (ws : List Worker)
    → n < waiting ws
    → (ws' : List Worker) × (take_up ws ≡ some ws') × (n ≤ waiting ws') × (length ws' ≡ length ws)
unfolding take_up
take_up-some n [] h = absurd (omega (arith, h))
take_up-some n (w ∷ ws) h = elim (Bool-cases (is_waiting w)) [
  | inl has ↦ (thread_step w ∷ ws, rw (take_up, has) refl, ground (arith, h, has), refl)
  | inr idle ↦
      let (ws', taken, left, same) = take_up-some n ws (rw (idle) at h) in
      (w ∷ ws', rw (take_up, idle, taken) refl, ground (arith, left, idle), omega (arith, same))
]

dispatch_ws-sent :
    (task : ℕ) (p : TenantPool)
    → p.ws_busy < p.max_ws_connections
    → Running p.ws_workers
    → (p' : TenantPool) × (dispatch_ws task p ≡ sent p')
      × (p'.ws_busy ≡ p.ws_busy)
      × (p'.max_ws_connections ≡ p.max_ws_connections)
      × Running p'.ws_workers
      × (waiting p'.ws_workers ≡ waiting p.ws_workers + 1)
unfolding dispatch_ws send
dispatch_ws-sent task p h v = (
  record p { ws_workers = p.ws_workers ++ (one ∷ []) },
  rw (dispatch_ws, below, keep-Running p.ws_workers v) refl,
  refl,
  refl,
  All-append (λ (w : Worker). w.ended ≡ false) p.ws_workers (one ∷ []) v (refl, tt),
  waiting-append p.ws_workers one refl,
)
  where
    one : Worker
    one = record fresh { tasks = task ∷ [] }

    below : leb p.max_ws_connections p.ws_busy ≡ false
    below = ground (arith, h)

requests_open :
    (n : ℕ) (p : TenantPool)
    → p.ws_busy < p.max_ws_connections
    → Running p.ws_workers
    → let p' = run p (repeat n requested) in
      (p'.ws_busy ≡ p.ws_busy)
      × (waiting p'.ws_workers ≡ waiting p.ws_workers + n)
      × (accepted p (repeat n requested) ≡ n)
unfolding run step accepts accepted
requests_open zero p h v = (refl, omega arith, refl)
requests_open (suc n) p h v =
    let (p', taken, busy, max, running, one) = dispatch_ws-sent n p h v in
    let (busy', more, all) = requests_open n p' (omega (arith, busy, max)) running in
    rw (run, step, accepted, accepts, taken)
      (busy' ∙ busy, omega (arith, more, one), omega (arith, all))

begun_all :
    (n : ℕ) (p : TenantPool)
    → n ≤ waiting p.ws_workers
    → ((run p (repeat n (λ _. begun))).ws_busy ≡ p.ws_busy + n)
      × (accepted p (repeat n (λ _. begun)) ≡ 0)
unfolding run step accepts accepted
begun_all zero p h = (omega arith, refl)
begun_all (suc n) p h =
    let (ws, taken, left, _) = take_up-some n p.ws_workers (omega (arith, h)) in
    let (busy, none_more) =
      begun_all n (record p { ws_workers = ws; ws_busy = p.ws_busy + 1 }) left in
    rw (run, step, accepted, accepts, taken) (omega (arith, busy), omega (arith, none_more))

run-append : (es fs : List Event) (p : TenantPool) → run p (es ++ fs) ≡ run (run p es) fs
unfolding run
run-append [] fs p = refl
run-append (e ∷ es) fs p = run-append es fs (step p e)

accepted-append :
    (es fs : List Event) (p : TenantPool)
    → accepted p (es ++ fs) ≡ accepted p es + accepted (run p es) fs
unfolding run accepted
accepted-append [] fs p = omega arith
accepted-append (e ∷ es) fs p = omega (arith, accepted-append es fs (step p e))

-- While fewer connections are busy than the limit allows and the threads of the WebSocket workers
-- run, any number of requests that come before their workers take them up are all accepted, and
-- once as many workers have taken one up, as many more connections are busy.
pub requests_over :
    (n : ℕ) (p : TenantPool)
    → p.ws_busy < p.max_ws_connections
    → Running p.ws_workers
    → let es = repeat n requested ++ repeat n (λ _. begun) in
      (accepted p es ≡ n) × ((run p es).ws_busy ≡ p.ws_busy + n)
requests_over n p h v =
    let (busy, more, all) = requests_open n p h v in
    let (over, none_more) = begun_all n (run p (repeat n requested)) (omega (arith, more)) in
    (
      accepted-append (repeat n requested) (repeat n (λ _. begun)) p
          ∙ omega (arith, all, none_more),
      rw (run-append (repeat n requested) (repeat n (λ _. begun)) p) (over ∙ omega (arith, busy)),
    )
