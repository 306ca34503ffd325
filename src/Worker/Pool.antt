-- ===== src/Worker/Pool.antt =====
-- The dispatch of tasks to worker threads: `TenantPool` of src/worker/tenant_pool.rs and
-- `WorkerPool` of src/worker/pool.rs. A channel of the standard library is the list of the tasks in
-- it, and fails once its receiver is gone; a task stands for itself by a number.
pub mod Robin
pub mod Sockets
pub mod Join
use nano_rs.Common.{
  ℕ, zero, suc, ◌+◌, ◌-◌, ◌*◌, ◌%◌, ◌^◌, Bool, true, false, not, Option, none, some, List, [], ◌∷◌,
  ◌++◌, length, keep, leb, ltb, ◌==◌, if◌then◌else◌,
}

-- A worker: the tasks in its channel, whether its sender still exists, and whether its thread has
-- ended, which drops the receiver.
pub record Worker : Type 0 where
  pub tasks : List ℕ
  pub sender : Bool
  pub ended : Bool

abbrev pub fresh : Worker
fresh = record { tasks = []; sender = true; ended = false }

-- `task_tx.send(task)`.
unfoldable pub send : ℕ → Worker → Option Worker
send task w = if w.ended then none else some (record w { tasks = w.tasks ++ (task ∷ []) })

-- How a dispatch ends. An index out of range and a remainder by 0 panic.
pub data Dispatched (S : Type 0) : Type 0 where
  sent : (state : S) → Dispatched S
  refused : (state : S) → Dispatched S
  panicked : Dispatched S

-- The send to the worker at an index; `none` past the end.
unfoldable pub send_at : ℕ → ℕ → List Worker → Option (List Worker × Bool)
unfolding send
send_at i task [] = none
send_at zero task (w ∷ ws) = elim (send task w) [
  | none ↦ some (w ∷ ws, false)
  | some w' ↦ some (w' ∷ ws, true)
]
send_at (suc i) task (w ∷ ws) = elim (send_at i task ws) [
  | none ↦ none
  | some (ws', done) ↦ some (w ∷ ws', done)
]

-- `TenantPool`: the workers for requests and for WebSockets, of which `ws_busy` serve one now.
pub record TenantPool : Type 0 where
  pub workers : List Worker
  pub next_worker : ℕ
  pub ws_workers : List Worker
  pub ws_busy : ℕ
  pub max_ws_connections : ℕ

unfoldable pub spawn_workers : ℕ → List Worker
spawn_workers zero = []
spawn_workers (suc n) = fresh ∷ spawn_workers n

unfoldable pub new : ℕ → ℕ → TenantPool
unfolding spawn_workers
new worker_count max_ws = record {
  workers = spawn_workers worker_count;
  next_worker = 0;
  ws_workers = [];
  ws_busy = 0;
  max_ws_connections = max_ws;
}

-- The counter has 64 bits.
unfoldable pub dispatch : ℕ → TenantPool → Dispatched TenantPool
unfolding send_at
dispatch task p =
    let p' = record p { next_worker = (p.next_worker + 1) % 2 ^ 64 } in
    if length p.workers == 0
    then panicked
    else elim (send_at (p.next_worker % length p.workers) task p.workers) [
      | none ↦ panicked
      | some (ws, true) ↦ sent (record p' { workers = ws })
      | some (ws, false) ↦ refused p'
    ]

abbrev is_running : Worker → Bool
is_running w = not w.ended

unfoldable pub dispatch_ws : ℕ → TenantPool → Dispatched TenantPool
unfolding send
dispatch_ws task p =
    let kept = keep is_running p.ws_workers in
    if leb p.max_ws_connections p.ws_busy then refused p else elim (send task fresh) [
      | none ↦ refused (record p { ws_workers = kept })
      | some w ↦ sent (record p { ws_workers = kept ++ (w ∷ []) })
    ]

-- `WorkerPool`, whose counter has 32 bits.
pub record WorkerPool : Type 0 where
  pub workers : List Worker
  pub worker_count : ℕ
  pub next_worker : ℕ

unfoldable pub dispatch_to : ℕ → ℕ → WorkerPool → Dispatched WorkerPool
unfolding send_at
dispatch_to worker_idx task p =
    if leb p.worker_count worker_idx then refused p else elim (send_at worker_idx task p.workers) [
      | none ↦ panicked
      | some (ws, true) ↦ sent (record p { workers = ws })
      | some (ws, false) ↦ refused p
    ]

unfoldable pub dispatch_next : ℕ → WorkerPool → Dispatched WorkerPool
unfolding send_at
dispatch_next task p =
    let p' = record p { next_worker = (p.next_worker + 1) % 2 ^ 32 } in
    if p.worker_count == 0
    then panicked
    else elim (send_at (p.next_worker % p.worker_count) task p.workers) [
      | none ↦ panicked
      | some (ws, true) ↦ sent (record p' { workers = ws })
      | some (ws, false) ↦ refused p'
    ]

-- A step of a worker's thread, if it is not blocked: a task, or the end once the channel is empty
-- and its sender gone.
unfoldable pub thread_step : Worker → Worker
thread_step w = if w.ended then w else elim w.tasks [
  | [] ↦ if w.sender then w else record w { ended = true }
  | _ ∷ tasks ↦ record w { tasks = tasks }
]

-- `join`: whether the thread has ended within a number of its steps, during which nobody sends.
unfoldable pub join : ℕ → Worker → Bool
unfolding thread_step
join zero w = w.ended
join (suc n) w = let later = join n (thread_step w) in if w.ended then true else later

-- `Drop` of `TenantPool` joins each thread while its worker, with the sender in it, is borrowed.
unfoldable pub drop_joins : ℕ → List Worker → Bool
unfolding join
drop_joins n [] = true
drop_joins n (w ∷ ws) = let rest = drop_joins n ws in if join n w then rest else false

-- `shutdown` of `WorkerPool` drops the handles, with their senders, before it joins.
unfoldable pub shutdown_joins : ℕ → List Worker → Bool
unfolding join
shutdown_joins n [] = true
shutdown_joins n (w ∷ ws) =
    let rest = shutdown_joins n ws in if join n (record w { sender = false }) then rest else false
