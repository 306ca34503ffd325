-- ===== src/Vfs/Types.antt =====
-- Errors, files and limits of the file system: src/vfs/types.rs.
use nano_rs.Common.{ℕ, ◌*◌, Option, none, some, List, Text, bytes, length}

pub data VfsError : Type 0 where
  not_found permission_denied already_exists : Text → VfsError
  invalid_path : Text → Text → VfsError
  quota_exceeded : Text → ℕ → ℕ → VfsError
  io_error not_supported : Text → VfsError

pub code : VfsError → Text
code (not_found p) = bytes "ENOENT"
code (permission_denied p) = bytes "EACCES"
code (already_exists p) = bytes "EEXIST"
code (invalid_path p r) = bytes "EINVAL"
code (quota_exceeded r l c) = bytes "EQUOTA"
code (io_error e) = bytes "EIO"
code (not_supported f) = bytes "ENOTSUP"

pub path : VfsError → Option Text
path (not_found p) = some p
path (permission_denied p) = some p
path (already_exists p) = some p
path (invalid_path p r) = some p
path (quota_exceeded _ _ _) = none
path (io_error _) = none
path (not_supported _) = none

pub data VfsResult {ℓ} (A : Type ℓ) : Type ℓ where
  err : VfsError → VfsResult A
  ok : A → VfsResult A

-- `?` in a chain of calls.
module _ {ℓ κ} {A : Type ℓ} {B : Type κ} where
  infixl 5 ◌>>=◌
  abbrev pub ◌>>=◌ : VfsResult A → (A → VfsResult B) → VfsResult B
  err why >>= next = err why
  ok value >>= next = next value

-- The times are readings of the clock.
pub record VfsFile : Type 0 where
  pub content : List ℕ
  pub created_at : ℕ
  pub modified_at : ℕ
  pub size : ℕ

unfoldable pub new_file : ℕ → List ℕ → VfsFile
new_file now content = record {
  content = content;
  created_at = now;
  modified_at = now;
  size = length content;
}

unfoldable pub update_content : ℕ → VfsFile → List ℕ → VfsFile
update_content now f content = record f {
  content = content;
  modified_at = now;
  size = length content;
}

pub record ResourceLimits : Type 0 where
  pub file_size_bytes_max : ℕ
  pub total_storage_bytes_max : ℕ
  pub files_count_max : ℕ

abbrev pub default_limits : ResourceLimits
default_limits = record {
  file_size_bytes_max = 10 * 1024 * 1024;
  total_storage_bytes_max = 100 * 1024 * 1024;
  files_count_max = 1000;
}

abbrev pub test_limits : ResourceLimits
test_limits = record {
  file_size_bytes_max = 100;
  total_storage_bytes_max = 500;
  files_count_max = 5;
}
