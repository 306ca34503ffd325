-- ===== src/Worker/Tests/Queues.antt =====
-- The theorems on the pools of the work queue at concrete hostnames.
use nano_rs.Common.{
  ◌≡◌, refl, true, false, none, some, [], ◌∷◌, Text, bytes, get, put, str_eq, contains, length,
}
use nano_rs.Control.Defs.{done, panicked}
use nano_rs.Control.Plane.{register_tenant, tenant_exists}
use nano_rs.Control.Plane
use nano_rs.Control.Queue
use nano_rs.Config.Checks.{disk}
use nano_rs.Config.Root.{AppConfig, default_app}
use nano_rs.App.Reload.{AppRegistry, get_app}
use nano_rs.Worker.Pool.{spawn_workers, dispatch_next, send_at, send}
use nano_rs.Worker.Queue.{register_all, ensure_tenant}
use nano_rs.Worker.Queue.Pools.{
  World, WorkQueue, EntrypointWorkerPool, in_memory, on_disk, with_backend, hash_hostname,
  empty_queue, add_pool, with_vfs_config, app_backend, fallback_backend, pool_backend,
  get_or_create_pool, get_pool, dispatch, dispatch_pooled,
}
use nano_rs.Worker.Queue.Routing.{IsMade, dispatch-leaves, get_or_create_pool-first}
use nano_rs.Worker.Queue.Counters.{IsCounted, run, run-with_vfs_config}
use nano_rs.Worker.Tests.{fresh, host, known}

-- The hash is the length.
abbrev world : World
world = record {
  hash = length;
  can_create = λ path. true;
  parent = λ path. none;
  file_stem = λ path. none;
  join = λ dir name. dir;
  is_dir = λ path. false;
}

-- An app on the disk, under a hostname with a capital.
abbrev stored : AppConfig
stored = record default_app {
  hostname = bytes "App.io";
  vfs_backend = disk;
  vfs_disk = some (record { base_path = bytes "/data" });
}

abbrev registry : AppRegistry
registry = record { apps = (bytes "App.io", stored) ∷ [] }

abbrev queue : WorkQueue
queue = empty_queue 1 none (some registry) fresh

-- With the spelling of the registry the pool is on the disk.
stored_on_disk : pool_backend world (bytes "App.io") queue ≡ on_disk (bytes "/data")
unfolding pool_backend app_backend get_app get str_eq
stored_on_disk = refl

abbrev app_pool : EntrypointWorkerPool
app_pool = record {
  inner = record { workers = spawn_workers 1; worker_count = 1; next_worker = 0 };
  backend = in_memory;
  hostname = host;
  worker_count = 1;
}

-- A queue of no workers makes no pool.
no_workers : get_or_create_pool world host (record queue { workers_per_pool = 0 }) ≡ panicked
unfolding get_or_create_pool get put ensure_tenant register_tenant tenant_exists contains str_eq
    with_backend
no_workers = refl

first_made : get_or_create_pool world host queue ≡ done (add_pool world host app_pool known queue)
unfolding get_or_create_pool get put ensure_tenant register_tenant tenant_exists contains str_eq
    pool_backend fallback_backend get_app with_backend
first_made = refl

get_or_create_pool-first_example :
    (pool : EntrypointWorkerPool) × (get_or_create_pool world
        (bytes "App.io")
        (add_pool world host app_pool known queue)
      ≡ done (add_pool world host app_pool known queue))
    × (get_pool world (bytes "App.io") (add_pool world host app_pool known queue) ≡ some pool)
    × IsMade 1 in_memory pool
unfolding pool_backend fallback_backend get_app get str_eq
get_or_create_pool-first_example =
    get_or_create_pool-first world host (bytes "App.io") queue
      (add_pool world host app_pool known queue) refl refl first_made

abbrev shop : Text
shop = bytes "shop.com"

abbrev served : WorkQueue
served = add_pool world host app_pool known queue

-- The pool of the app has one task.
abbrev busy_pool : EntrypointWorkerPool
busy_pool = record {
  inner = record {
    workers = record { tasks = 5 ∷ []; sender = true; ended = false } ∷ [];
    worker_count = 1;
    next_worker = 1;
  };
  backend = in_memory;
  hostname = host;
  worker_count = 1;
}

abbrev busy : WorkQueue
busy = record served {
  pools = put (hash_hostname world host) busy_pool [];
  stats = record {
    tasks_submitted = 1;
    tasks_completed = 0;
    tasks_dropped = 0;
    active_pools = 1;
    active_workers = 1;
  };
}

dispatched : dispatch world host 5 queue ≡ done (true, busy)
unfolding dispatch get_or_create_pool get put ensure_tenant register_tenant tenant_exists contains
    str_eq pool_backend fallback_backend get_app with_backend spawn_workers dispatch_pooled
    dispatch_next send_at send
dispatched = refl

dispatch-leaves_example : get_pool world shop busy ≡ get_pool world shop queue
dispatch-leaves_example = dispatch-leaves world host shop 5 queue busy true dispatched (λ e. cc e)

abbrev plain_queue : WorkQueue
plain_queue = record queue { app_registry = none }

abbrev plain_busy : WorkQueue
plain_busy = record busy { app_registry = none }

made : with_vfs_config 1 none none ≡ done plain_queue
unfolding with_vfs_config register_all Plane.new Queue.new
made = refl

ran : run world ((host, 5) ∷ []) plain_queue ≡ done (true ∷ [], plain_busy)
unfolding dispatch get_or_create_pool get put ensure_tenant register_tenant tenant_exists contains
    str_eq pool_backend fallback_backend get_app with_backend spawn_workers dispatch_pooled
    dispatch_next send_at send
ran = refl

run-with_vfs_config_example : IsCounted 1 0 plain_busy
run-with_vfs_config_example =
    run-with_vfs_config world 1 none none ((host, 5) ∷ []) plain_queue plain_busy (true ∷ []) made
      ran
