-- ===== src/Vfs/Isolate.antt =====
-- `VfsNamespace` and `IsolateVfs` of src/vfs/isolate.rs: each isolate sees the shared backend
-- through a prefix that is made of its hostname. Hostnames are ASCII.
pub mod Prefix
pub mod Isolation
use nano_rs.Common.{
  to_lowercase, ℕ, ◌+◌, ◌≡◌, Bool, ◌&&◌, List, [], ◌∷◌, ◌++◌, map, Option, Text, bytes, is_empty,
  leb, ◌==◌, if◌then◌else◌,
}
use nano_rs.Vfs.Types.{VfsFile, VfsResult, ok, err, ◌>>=◌}
use nano_rs.Vfs.Path
use nano_rs.Vfs.Memory.{MemoryBackend}
use nano_rs.Vfs.Memory

-- `replace` of one byte by another.
replace : ℕ → ℕ → ℕ → ℕ
replace from to c = if c == from then to else c

unfoldable pub from_hostname : Text → Text
unfolding replace
from_hostname hostname = map (replace b'-' b'_') (map (replace b'.' b'_') (to_lowercase hostname))

pub record IsolateVfs : Type 0 where
  pub namespace : Text
  pub backend : MemoryBackend

abbrev pub separator : Text
separator = bytes "::"

unfoldable pub prefix_namespace : Text → Text → VfsResult Text
prefix_namespace ns path = do
  path ← Path.new path
  Path.new (if is_empty ns then path else ns ++ (separator ++ path))

unfoldable pub read : IsolateVfs → Text → VfsResult (List ℕ)
read vfs path = do
  storage_path ← prefix_namespace vfs.namespace path
  Memory.read vfs.backend storage_path

-- The new state of the backend, which the other isolates share.
unfoldable pub write : ℕ → IsolateVfs → Text → List ℕ → VfsResult MemoryBackend
write now vfs path content = do
  storage_path ← prefix_namespace vfs.namespace path
  Memory.write now vfs.backend storage_path content

unfoldable pub exists : IsolateVfs → Text → VfsResult Bool
exists vfs path = do
  storage_path ← prefix_namespace vfs.namespace path
  Memory.exists vfs.backend storage_path

unfoldable pub delete : IsolateVfs → Text → VfsResult MemoryBackend
delete vfs path = do
  storage_path ← prefix_namespace vfs.namespace path
  Memory.delete vfs.backend storage_path

unfoldable pub metadata : IsolateVfs → Text → VfsResult VfsFile
metadata vfs path = do
  storage_path ← prefix_namespace vfs.namespace path
  Memory.metadata vfs.backend storage_path

unfoldable pub list_dir : IsolateVfs → Text → VfsResult (Option (List Text))
list_dir vfs path = do
  storage_path ← prefix_namespace vfs.namespace path
  ok (Memory.list_dir vfs.backend storage_path)
