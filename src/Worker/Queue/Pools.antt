-- ===== src/Worker/Queue/Pools.antt =====
-- The pools of the `WorkQueue` of src/worker/queue.rs: their backends, the dispatch and the counters.
-- The hash of a hostname, the disk and the paths of the standard library are the interface World.
use nano_rs.Common.{
  ℕ, ◌+◌, ◌^◌, ◌%◌, Bool, true, false, Option, none, some, List, [], ◌∷◌, Text, is_empty,
  to_lowercase, get, put, has_key, ltb, ◌==◌, if◌then◌else◌,
}
use nano_rs.Control.Defs.{Outcome, done, panicked, ◌>>=◌, ◌>>◌, assert, ControlPlane}
use nano_rs.Config.Checks.{memory, disk, s3, VfsDiskConfig}
use nano_rs.Config.Root.{AppConfig}
use nano_rs.App.Reload.{AppRegistry, all_hostnames, get_app}
use nano_rs.Worker.Pool.{WorkerPool, spawn_workers, dispatch_next, Dispatched, sent, refused}
use nano_rs.Worker.Pool
use nano_rs.Control.Plane
use nano_rs.Worker.Queue.{ensure_tenant, register_all}

-- The backend of a pool: in memory, or on the disk below a path.
pub data PoolBackend : Type 0 where
  in_memory : PoolBackend
  on_disk : Text → PoolBackend

-- The hash of a text; whether a disk backend can be made below a path; the directory and the stem
-- of a path, the path of an entry in a directory, and whether a path is a directory.
pub record World : Type 0 where
  pub hash : Text → ℕ
  pub can_create : Text → Bool
  pub parent : Text → Option Text
  pub file_stem : Text → Option Text
  pub join : Text → Text → Text
  pub is_dir : Text → Bool

pub record EntrypointWorkerPool : Type 0 where
  pub inner : WorkerPool
  pub backend : PoolBackend
  pub hostname : Text
  pub worker_count : ℕ

-- A pool without workers is refused by an assertion of `WorkerPool::with_source_and_backend`.
unfoldable pub with_backend : Text → ℕ → PoolBackend → Outcome EntrypointWorkerPool
unfolding spawn_workers
with_backend hostname worker_count backend = do
  assert (ltb 0 worker_count)
  done (record {
    inner = record {
      workers = spawn_workers worker_count;
      worker_count = worker_count;
      next_worker = 0;
    };
    backend = backend;
    hostname = hostname;
    worker_count = worker_count;
  })

pub record QueueStats : Type 0 where
  pub tasks_submitted : ℕ
  pub tasks_completed : ℕ
  pub tasks_dropped : ℕ
  pub active_pools : ℕ
  pub active_workers : ℕ

abbrev pub new_stats : QueueStats
new_stats = record {
  tasks_submitted = 0;
  tasks_completed = 0;
  tasks_dropped = 0;
  active_pools = 0;
  active_workers = 0;
}

abbrev pub hostnames_of : Option AppRegistry → List Text
hostnames_of none = []
hostnames_of (some registry) = all_hostnames registry

-- A key of the map of pools is the one hash.
pub record WorkQueue : Type 0 where
  pub pools : List (List ℕ × EntrypointWorkerPool)
  pub workers_per_pool : ℕ
  pub channel_capacity : ℕ
  pub stats : QueueStats
  pub vfs_disk_config : Option VfsDiskConfig
  pub app_registry : Option AppRegistry
  pub control_plane : ControlPlane

abbrev pub empty_queue : ℕ → Option VfsDiskConfig → Option AppRegistry → ControlPlane → WorkQueue
empty_queue workers_per_pool vfs_disk_config app_registry control_plane = record {
  pools = [];
  workers_per_pool = workers_per_pool;
  channel_capacity = 256;
  stats = new_stats;
  vfs_disk_config = vfs_disk_config;
  app_registry = app_registry;
  control_plane = control_plane;
}

-- The tenants of the registry are registered at once.
unfoldable pub with_vfs_config : ℕ → Option VfsDiskConfig → Option AppRegistry → Outcome WorkQueue
unfolding register_all Plane.new
with_vfs_config workers_per_pool vfs_disk_config app_registry = do
  control_plane ← Plane.new
  control_plane ← register_all control_plane (hostnames_of app_registry)
  done (empty_queue workers_per_pool vfs_disk_config app_registry control_plane)

module _ (w : World) where
  abbrev pub hash_hostname : Text → List ℕ
  hash_hostname hostname = w.hash (to_lowercase hostname) ∷ []

  -- A disk backend that cannot be made becomes one in memory.
  abbrev pub disk_or_memory : Text → PoolBackend
  disk_or_memory base_path = if w.can_create base_path then on_disk base_path else in_memory

  abbrev pub or_empty : Option Text → Text
  or_empty none = []
  or_empty (some text) = text

  -- The directory of an entrypoint, or the one in it that is named as the entrypoint is.
  abbrev pub entrypoint_dir : Text → Text → Text
  entrypoint_dir entrypoint dir =
      let subdir = w.join dir (or_empty (w.file_stem entrypoint)) in
      if w.is_dir subdir then subdir else dir

  unfoldable pub app_backend : AppConfig → PoolBackend
  app_backend app = elim app.vfs_backend [
    | memory ↦ if is_empty app.entrypoint then in_memory else elim (w.parent app.entrypoint) [
      | none ↦ in_memory
      | some dir ↦ disk_or_memory (entrypoint_dir app.entrypoint dir)
    ]
    | disk ↦ elim app.vfs_disk [ none ↦ in_memory | some config ↦ disk_or_memory config.base_path ]
    | s3 ↦ in_memory
  ]

  unfoldable pub fallback_backend : WorkQueue → PoolBackend
  fallback_backend q = elim q.vfs_disk_config [
    | none ↦ in_memory
    | some config ↦ disk_or_memory config.base_path
  ]

  unfoldable pub pool_backend : Text → WorkQueue → PoolBackend
  unfolding get_app app_backend fallback_backend
  pool_backend hostname q = elim q.app_registry [
    | none ↦ fallback_backend q
    | some registry ↦ elim (get_app hostname registry) [
      | none ↦ fallback_backend q
      | some app ↦ app_backend app
    ]
  ]

  -- The queue with a new pool.
  abbrev pub add_pool : Text → EntrypointWorkerPool → ControlPlane → WorkQueue → WorkQueue
  add_pool hostname pool control_plane q = record q {
    pools = put (hash_hostname hostname) pool q.pools;
    stats = record q.stats {
      active_pools = (q.stats.active_pools + 1) % 2 ^ 32;
      active_workers = (q.stats.active_workers + q.workers_per_pool) % 2 ^ 32;
    };
    control_plane = control_plane;
  }

  -- The queue with a pool for the hostname.
  unfoldable pub get_or_create_pool : Text → WorkQueue → Outcome WorkQueue
  unfolding get put ensure_tenant pool_backend with_backend
  get_or_create_pool hostname q = if has_key (hash_hostname hostname) q.pools then done q else (do
    control_plane ← ensure_tenant q.control_plane hostname
    pool ← with_backend hostname q.workers_per_pool (pool_backend hostname q)
    done (add_pool hostname pool control_plane q))

  abbrev pub set_pool : Text → EntrypointWorkerPool → WorkerPool → WorkQueue → WorkQueue
  set_pool hostname pool inner q = record q {
    pools = put (hash_hostname hostname) (record pool { inner = inner }) q.pools;
  }

  -- The counters after a dispatch, of which one is for the tasks that were not sent.
  abbrev pub count_task : Bool → WorkQueue → WorkQueue
  count_task accepted q = record q {
    stats = record q.stats {
      tasks_submitted = (q.stats.tasks_submitted + 1) % 2 ^ 64;
      tasks_dropped =
          if accepted then q.stats.tasks_dropped else (q.stats.tasks_dropped + 1) % 2 ^ 64;
    };
  }

  -- Whether the task was sent, and the queue with the pool that took it or did not.
  abbrev pub after_dispatch :
      Text → EntrypointWorkerPool → WorkQueue → Dispatched WorkerPool → Outcome (Bool × WorkQueue)
  after_dispatch hostname pool q (sent inner) =
      done (true, count_task true (set_pool hostname pool inner q))
  after_dispatch hostname pool q (refused inner) =
      done (false, count_task false (set_pool hostname pool inner q))
  after_dispatch hostname pool q Pool.panicked = panicked

  -- The index of a worker is a remainder by their number, and is then
  -- not used: the pool takes the next worker.
  unfoldable pub dispatch_pooled :
      Text → ℕ → WorkQueue → EntrypointWorkerPool → Outcome (Bool × WorkQueue)
  unfolding dispatch_next
  dispatch_pooled hostname task q pool =
      if pool.worker_count == 0
      then panicked
      else after_dispatch hostname pool q (dispatch_next task pool.inner)

  unfoldable pub dispatch : Text → ℕ → WorkQueue → Outcome (Bool × WorkQueue)
  unfolding get_or_create_pool dispatch_pooled get
  dispatch hostname task q = do
    q ← get_or_create_pool hostname q
    elim (get (hash_hostname hostname) q.pools) [
      | none ↦ panicked
      | some pool ↦ dispatch_pooled hostname task q pool
    ]

  abbrev pub get_pool : Text → WorkQueue → Option EntrypointWorkerPool
  get_pool hostname q = get (hash_hostname hostname) q.pools
