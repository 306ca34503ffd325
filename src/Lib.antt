-- ===== src/Lib.antt =====
-- A model of the core of nano-rs, a server that runs JavaScript apps of many tenants in one
-- process, each in an isolate of its own, and theorems on the model.
--
-- The parts, and how they work together:
--
-- - Limits: the fixed bounds of src/limits.rs, which the control plane checks requests against.
-- - Vfs: the virtual file system of src/vfs. Vfs/Types and Vfs/Path are types.rs (VfsError, VfsFile,
--   ResourceLimits, VfsPath); Vfs/Memory is the MemoryBackend of memory.rs, a map from paths to
--   files with two counters that the quotas read; Vfs/Isolate is isolate.rs, where each app gets at
--   the one shared backend through a prefix made of its hostname. Every path is a VfsPath, checked
--   before the prefix is put on and again with it.
-- - Control: the control plane of src/control_plane.rs. Control/Defs has its data, Control/Queue
--   the BatchQueue, Control/Plane the ControlPlane: submit_request checks a task and puts it in the
--   batch of its tenant; process_batches gives out the batches that are due.
-- - Eviction: the EvictionManager of src/worker/eviction.rs, with the pressure levels of
--   src/worker/memory_monitor.rs. Eviction/Defs has the data, Eviction/Sort and Eviction/Victims the
--   choice of victims, Eviction/Manager the operations on the two maps of the manager.
-- - Http: Http/Headers is the header map of src/http/headers.rs, which the server and the scripts
--   share; Http/Types the responses of src/http/types.rs; Http/Serve and Http/Router the routes of
--   src/http/router.rs, what each serves and which one a request goes to. The disk and the runs of
--   scripts are the record Outside.
-- - App: App/Drain is src/app/drain.rs, the wait for the requests in flight before an app is swapped,
--   with the semaphore of the async runtime as an interface; App/Reload is the registry of apps of
--   src/app/registry.rs and its reload from a changed configuration, src/app/reload.rs.
-- - Worker: Worker/Queue is how the work queue of src/worker/queue.rs registers tenants in the
--   control plane, and Worker/Queue/Pools its pools by hostname over the registry of App and the
--   pools of Worker/Pool, with the disk, the paths and the hash as the interface World;
--   Worker/Memory has the memory limits of src/worker/limits.rs and the monitor of
--   src/worker/oom.rs, over what V8 tells of its heap and an interface for the float thresholds.
--   Worker/Pool is the dispatch to worker threads and their end, in src/worker/tenant_pool.rs and
--   src/worker/pool.rs; Worker/Timeout has the limits of time of src/worker/cpu_tracker.rs and
--   src/worker/timeout.rs, with the timers of the async runtime as an interface.
-- - Config: src/config. Config/Hostname and Config/Checks are what the two validations share,
--   Config/Root is that of mod.rs, Config/App that of app.rs; Config/Loader is loader.rs, from the
--   text with references to variables to the valid configuration, and Config/Startup the loading in
--   mod.rs. Config/Root/Tenants joins validated hostnames to the isolates of Vfs. Config/Cli is the
--   validation of the command line, src/cli/validation.rs.
-- - Runtime: Runtime/Stream is WritableStream of src/runtime/stream.rs, its writer and the task that
--   drives the sink; the channel of the async runtime and the sink are interfaces.
-- - Metrics: Metrics/Counters, Gauges and Histograms are src/metrics/types.rs; Metrics/Tenant has the
--   metrics of one tenant and Metrics/Collector those of all, of src/metrics/tenant.rs. The floats of
--   64 bits are an interface, Floats.
-- - Sliver: the checks of src/sliver/validation.rs. Sliver/Integrity is the validation of a snapshot,
--   of which the entries of the archive are given, and Sliver/Suggest the distance of names and the
--   suggestion of a similar one; a name there is the list of its characters. Sliver/Archive packs
--   and unpacks (src/sliver/packer.rs, unpacker.rs and format.rs) over the interface Codec, which is
--   the tar archive and the JSON of the metadata, and restores the files into an isolate of Vfs;
--   Sliver/Capture is the capture of its files, src/sliver/vfs_capture.rs.
-- - Esm: the loader of ES modules of src/v8/module.rs, which resolves imports over the files of an
--   isolate and caches what V8 compiles. V8, the builtin modules and the conversion of bytes to text
--   are the interface Engine. A compilation is numbered, as each makes a module of its own.
-- - DataPlane: the cache of code of src/data_plane.rs, by the time of change of a file.
--
-- A method of a struct is a function of the same name, from the state to its result and the new
-- state; a constructor `X::new` is `new` in the module of X. The children of a module that are
-- named for what they prove have theorems only, and the Tests modules the theorems at concrete
-- values.
--
-- How the code is modelled:
--
-- - Numbers are natural numbers. A counter of w bits wraps around, `% 2 ^ w`, as the release build
--   does. Pointers have 64 bits.
-- - A string is the list of its bytes, and the names of Sliver/Suggest the list of their characters.
--   Hostnames and the names of headers are ASCII, where `to_lowercase` changes bytes: the source
--   lowers the letters of other alphabets too.
-- - A hash map is an association list, each key once; its order stands for the order in which the
--   map is iterated, and nothing else depends on it. DashMap, atomics and mutexes are seen by one
--   caller at a time; Vfs/Memory/Race has two writes to the file system that interleave.
-- - An instant is a number of nanoseconds, given to each call as an argument; the difference of two
--   stops at 0, as `Instant::elapsed` does.
-- - A thread of a worker is its channel: it starts, a task is one step of it, and no isolate or
--   runtime of it fails to be made.
-- - A failed assertion is the outcome `panicked`. A panic under the lock of the batch queue poisons
--   it, as it does where panics unwind; the release profile aborts the process instead.
-- - The hash by which the random eviction policy sorts is a parameter of the choice of victims, as
--   is the seed. The stable sort of the standard library is an insertion sort.
-- - Of a HandlerTask the fields that the control plane reads are modelled.
-- - Loops over maps and lists are structural recursion. The substitution of variables in
--   Config/Loader takes fuel, a round for each byte and one more, which is enough. A join of threads
--   is given the number of their steps, and the capture of files the depth of the directories.
-- - An error message is a constructor for its format string, with the arguments.
-- - What the async runtime polls, and when, is a list of moments or of rounds, given as an argument.
-- - A wait is given the starts and completions of requests that come before its timeout.
--
-- Not modelled: the V8 and WebAssembly engines and their bindings, threads, the HTTP server, disk
-- and network backends, the watch of the configuration file, the export of metrics, the packaging,
-- the cache and the heaps of slivers, the rest of the command line. They are
-- bindings of third-party code and I/O, or wait for their turn.
mod Common
pub mod Limits
pub mod Vfs
pub mod Control
pub mod Eviction
pub mod Http
pub mod App
pub mod Worker
pub mod DataPlane
pub mod Config
pub mod Metrics
pub mod Runtime
pub mod Sliver
pub mod Esm
