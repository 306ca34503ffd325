-- ===== src/Worker/Queue/Routing.antt =====
-- Which pool of the `WorkQueue` of src/worker/queue.rs a task goes to.
use nano_rs.Common.{
  ℕ, zero, suc, ◌<◌, arith, subst, length, ltb, ◌≡◌, ◌≢◌, refl, sym, ap, ◌∙◌, Bool, true, false,
  Option, none, some, List, [], ◌∷◌, Text, to_lowercase, get, put, has_key, get-put, str_eq,
  str_eq_iff, ne_true, Bool-cases, ◌==◌, ◌⊎◌, inl, inr,
}
use nano_rs.Control.Defs.{Outcome, done, failed, panicked, ◌>>=◌, ControlPlane}
use nano_rs.Worker.Pool.{WorkerPool, spawn_workers, dispatch_next, sent, refused}
use nano_rs.Worker.Pool
use nano_rs.Worker.Queue.{ensure_tenant}
use nano_rs.Worker.Queue.Pools.{
  World, PoolBackend, EntrypointWorkerPool, WorkQueue, with_backend, hash_hostname, pool_backend,
  add_pool, get_or_create_pool, set_pool, count_task, after_dispatch, dispatch_pooled, dispatch,
  get_pool,
}

pub >>=-eq-done {ℓ κ} :
    {A : Type ℓ} {B : Type κ} {value : B} (m : Outcome A) (next : A → Outcome B)
    → (m >>= next) ≡ done value
    → (first : A) × (m ≡ done first) × (next first ≡ done value)
>>=-eq-done panicked next e = absurd (cc e)
>>=-eq-done (failed why) next e = absurd (cc e)
>>=-eq-done (done first) next e = (first, refl, e)

length-spawn_workers : (n : ℕ) → length (spawn_workers n) ≡ n
unfolding spawn_workers
length-spawn_workers zero = refl
length-spawn_workers (suc n) = ap suc (length-spawn_workers n)

-- What a pool that is made has.
pub IsMade : ℕ → PoolBackend → EntrypointWorkerPool → Type 0
IsMade n backend pool =
    (0 < n) × (length pool.inner.workers ≡ n) × (pool.worker_count ≡ n) × (pool.backend ≡ backend)

with_backend-IsMade :
    (hostname : Text) (n : ℕ) (backend : PoolBackend) (pool : EntrypointWorkerPool)
    → with_backend hostname n backend ≡ done pool
    → IsMade n backend pool
unfolding with_backend IsMade
with_backend-IsMade hostname n backend pool e = elim (Bool-cases (ltb 0 n)) [
  | inl some_worker ↦
      let made : EntrypointWorkerPool = record {
        inner = record { workers = spawn_workers n; worker_count = n; next_worker = 0 };
        backend = backend;
        hostname = hostname;
        worker_count = n;
      } in
      let same : made ≡ pool = cc (rw (with_backend, some_worker) at e) in
      subst (IsMade n backend) same
        (ground (arith, some_worker), length-spawn_workers n, refl, refl)
  | inr no_worker ↦ absurd (cc (rw (with_backend, no_worker) at e))
]

module _ (w : World) where
  -- What a call leaves of the other pools.
  abbrev Leaves : Text → WorkQueue → WorkQueue → Type 0
  Leaves hostname q q' =
      (other : Text)
      → hash_hostname w other ≢ hash_hostname w hostname
      → get_pool w other q' ≡ get_pool w other q

  put_leaves :
      (hostname other : Text) (pool : EntrypointWorkerPool)
      (pools : List (List ℕ × EntrypointWorkerPool))
      → hash_hostname w other ≢ hash_hostname w hostname
      → get (hash_hostname w other) (put (hash_hostname w hostname) pool pools)
        ≡ get (hash_hostname w other) pools
  put_leaves hostname other pool pools ne =
      let apart : str_eq (hash_hostname w hostname) (hash_hostname w other) ≡ false =
        ne_true _ (λ h. ne (sym ((str_eq_iff _ _).0 h))) in
      get-put (hash_hostname w hostname) (hash_hostname w other) pool pools ∙ rw (apart) refl

  -- A call that gives a queue: there is a pool, or one is made.
  pub get_or_create_pool-cases :
      (hostname : Text) (q q' : WorkQueue)
      → get_or_create_pool w hostname q ≡ done q'
      → ((has_key (hash_hostname w hostname) q.pools ≡ true) × (q ≡ q'))
        ⊎ ((has_key (hash_hostname w hostname) q.pools ≡ false)
            × (c : ControlPlane) × (pool : EntrypointWorkerPool) × (with_backend hostname
                  q.workers_per_pool
                  (pool_backend w hostname q)
                ≡ done pool)
            × (add_pool w hostname pool c q ≡ q'))
  unfolding get_or_create_pool
  get_or_create_pool-cases hostname q q' e =
      elim (Bool-cases (has_key (hash_hostname w hostname) q.pools)) [
        | inl there ↦ inl (there, cc (rw (get_or_create_pool, there) at e))
        | inr new ↦
            let (c, _, e1) =
              >>=-eq-done (ensure_tenant q.control_plane hostname) _
                (rw (get_or_create_pool, new) at e) in
            let (pool, started, made) =
              >>=-eq-done (with_backend hostname q.workers_per_pool (pool_backend w hostname q)) _
                e1 in
            inr (new, c, pool, started, cc made)
      ]

  dispatch_pooled-cases :
      (hostname : Text) (task : ℕ) (q q' : WorkQueue) (pool : EntrypointWorkerPool)
      (accepted : Bool)
      → dispatch_pooled w hostname task q pool ≡ done (accepted, q')
      → (inner : WorkerPool) × (count_task w accepted (set_pool w hostname pool inner q) ≡ q')
  unfolding dispatch_pooled
  dispatch_pooled-cases hostname task q q' pool accepted e =
      elim (Bool-cases (pool.worker_count == 0)) [
        | inl no_worker ↦ absurd (cc (rw (dispatch_pooled, no_worker) at e))
        | inr some_worker ↦
            go (dispatch_next task pool.inner) (rw (dispatch_pooled, some_worker) at e)
      ]
    where
      go :
          (r : Pool.Dispatched WorkerPool)
          → after_dispatch w hostname pool q r ≡ done (accepted, q')
          → (inner : WorkerPool) × (count_task w accepted (set_pool w hostname pool inner q) ≡ q')
      go (sent inner) h =
          let both : ◌≡◌ {A = Bool × WorkQueue}
              (true, count_task w true (set_pool w hostname pool inner q)) (accepted, q') =
            cc h in
          (
            inner,
            ap (λ b. count_task w b (set_pool w hostname pool inner q)) (sym (ap (λ x. x.0) both))
                ∙ ap (λ x. x.1) both,
          )
      go (refused inner) h =
          let both : ◌≡◌ {A = Bool × WorkQueue}
              (false, count_task w false (set_pool w hostname pool inner q)) (accepted, q') =
            cc h in
          (
            inner,
            ap (λ b. count_task w b (set_pool w hostname pool inner q)) (sym (ap (λ x. x.0) both))
                ∙ ap (λ x. x.1) both,
          )
      go Pool.panicked h = absurd (cc h)

  -- A dispatch: the pool is there or made, and one task is counted.
  pub dispatch-cases :
      (hostname : Text) (task : ℕ) (q q' : WorkQueue) (accepted : Bool)
      → dispatch w hostname task q ≡ done (accepted, q')
      → (q1 : WorkQueue) × (pool : EntrypointWorkerPool) × (inner : WorkerPool)
        × (get_or_create_pool w hostname q ≡ done q1)
        × (get_pool w hostname q1 ≡ some pool)
        × (count_task w accepted (set_pool w hostname pool inner q1) ≡ q')
  unfolding dispatch dispatch_pooled
  dispatch-cases hostname task q q' accepted e =
      let (q1, made, e1) = >>=-eq-done (get_or_create_pool w hostname q) _ e in
      go q1 made e1 (get_pool w hostname q1) refl
    where
      go :
          (q1 : WorkQueue)
          → get_or_create_pool w hostname q ≡ done q1
          → (elim (get_pool w hostname q1) [
            | none ↦ panicked
            | some pool ↦ dispatch_pooled w hostname task q1 pool
          ])
            ≡ done (accepted, q')
          → (r : Option EntrypointWorkerPool) → get_pool w hostname q1 ≡ r
          → (q1 : WorkQueue) × (pool : EntrypointWorkerPool) × (inner : WorkerPool)
            × (get_or_create_pool w hostname q ≡ done q1)
            × (get_pool w hostname q1 ≡ some pool)
            × (count_task w accepted (set_pool w hostname pool inner q1) ≡ q')
      go q1 made e1 none f = absurd (cc (rw (f) at e1))
      go q1 made e1 (some pool) f =
          let (inner, same) =
            dispatch_pooled-cases hostname task q1 q' pool accepted (rw (f) at e1) in
          (q1, pool, inner, made, f, same)

  get_or_create-Leaves :
      (hostname : Text) (q q' : WorkQueue)
      → get_or_create_pool w hostname q ≡ done q'
      → Leaves hostname q q'
  unfolding get_or_create_pool
  get_or_create-Leaves hostname q q' e other ne = elim (get_or_create_pool-cases hostname q q' e) [
    | inl (_, same) ↦ ap (get_pool w other) (sym same)
    | inr (_, _, _, _, made) ↦
        ap (get_pool w other) (sym made) ∙ put_leaves hostname other _ q.pools ne
  ]

  -- A dispatch leaves the pools of the hostnames with another hash as they are.
  pub dispatch-leaves :
      (hostname other : Text) (task : ℕ) (q q' : WorkQueue) (accepted : Bool)
      → dispatch w hostname task q ≡ done (accepted, q')
      → hash_hostname w other ≢ hash_hostname w hostname
      → get_pool w other q' ≡ get_pool w other q
  dispatch-leaves hostname other task q q' accepted e ne =
      let (q1, pool, inner, made, _, same) = dispatch-cases hostname task q q' accepted e in
      ap (get_pool w other) (sym same)
      ∙ put_leaves hostname other (record pool { inner = inner }) q1.pools ne
      ∙ get_or_create-Leaves hostname q q1 made other ne

  -- The pool of a hostname is made for the spelling that is seen first; every other spelling then
  -- has this pool, with the backend that the registry gives for the first one and as many workers as
  -- a pool of the queue has, which are one at least.
  pub get_or_create_pool-first :
      (first later : Text) (q q' : WorkQueue)
      → to_lowercase later ≡ to_lowercase first
      → get_pool w first q ≡ none
      → get_or_create_pool w first q ≡ done q'
      → (pool : EntrypointWorkerPool) × (get_or_create_pool w later q' ≡ done q')
        × (get_pool w later q' ≡ some pool)
        × IsMade q.workers_per_pool (pool_backend w first q) pool
  unfolding get_or_create_pool
  get_or_create_pool-first first later q q' same none_yet e =
      elim (get_or_create_pool-cases first q q' e) [
        | inl (there, _) ↦ absurd (cc (rw (has_key, none_yet) at there))
        | inr (_, c, pool, started, made) ↦
            let hashed : hash_hostname w later ≡ hash_hostname w first =
              ap (λ t. w.hash t ∷ []) same in
            let found : get_pool w later q' ≡ some pool =
              ap (get_pool w later) (sym made)
              ∙ get-put (hash_hostname w first) (hash_hostname w later) _ q.pools
              ∙ rw ((str_eq_iff (hash_hostname w first) (hash_hostname w later)).1 (sym hashed))
                  refl in
            (
              pool,
              rw (get_or_create_pool, has_key, found) refl,
              found,
              with_backend-IsMade first q.workers_per_pool (pool_backend w first q) pool started,
            )
      ]
