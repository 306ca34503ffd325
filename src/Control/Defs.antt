-- ===== src/Control/Defs.antt =====
-- The data of the control plane. Instants are counted in nanoseconds.
use nano_rs.Common.{ℕ, Bool, true, false, Option, List, [], ◌∷◌, Text, bytes}
use nano_rs.Limits.{script_size_bytes_max, timeout_ms}

abbrev pub batch_size_max : ℕ
batch_size_max = 64

abbrev pub batch_wait_ms : ℕ
batch_wait_ms = 10

abbrev pub max_pending_batches : ℕ
max_pending_batches = 10000

abbrev pub max_entrypoint_path_len : ℕ
max_entrypoint_path_len = 4096

abbrev pub max_request_id_len : ℕ
max_request_id_len = 64

pub data ControlError : Type 0 where
  validation_error tenant_not_found limit_exceeded dispatch_error : Text → ControlError
  not_initialized queue_full : ControlError

-- What a call ends in: a value, an error that it returns, or a panic of an assertion.
pub data Outcome {ℓ} (A : Type ℓ) : Type ℓ where
  done : A → Outcome A
  failed : ControlError → Outcome A
  panicked : Outcome A

module _ {ℓ κ} {A : Type ℓ} {B : Type κ} where
  infixl 5 ◌>>=◌
  abbrev pub ◌>>=◌ : Outcome A → (A → Outcome B) → Outcome B
  panicked >>= next = panicked
  failed why >>= next = failed why
  done value >>= next = next value

infixl 5 ◌>>◌
abbrev pub ◌>>◌ {ℓ} : {B : Type ℓ} → Outcome (Unit {0}) → Outcome B → Outcome B
check >> rest = check >>= λ _. rest

-- `assert!`, which the assertion macros of src/assertions.rs expand to.
abbrev pub assert : Bool → Outcome (Unit {0})
assert true = done tt
assert false = panicked

-- The parts of a request and a task that the control plane reads.
pub record NanoRequest : Type 0 where
  pub method : Text
  pub body : Option (List ℕ)

pub record HandlerTask : Type 0 where
  pub entrypoint : Text
  pub request : NanoRequest
  pub hostname : Text
  pub cpu_time_limit_ms : ℕ
  pub request_id : Text

pub record ValidatedRequest : Type 0 where
  pub task : HandlerTask
  pub script_size : ℕ
  pub timeout : ℕ
  pub priority : ℕ
  pub validated_at : ℕ

pub record RequestBatch : Type 0 where
  pub tenant_id : Text
  pub requests : List ValidatedRequest
  pub created_at : ℕ

pub record PendingBatch : Type 0 where
  pub requests : List ValidatedRequest
  pub created_at : ℕ

pub record BatchQueue : Type 0 where
  pub pending : List (Text × PendingBatch)
  pub max_batch_size : ℕ
  pub max_batch_wait_ms : ℕ

pub record TenantLimits : Type 0 where
  pub max_script_size : ℕ
  pub max_timeout_ms : ℕ
  pub max_batch_size : ℕ
  pub allowed_methods : List Text

abbrev pub default_tenant_limits : TenantLimits
default_tenant_limits = record {
  max_script_size = script_size_bytes_max;
  max_timeout_ms = timeout_ms;
  max_batch_size = batch_size_max;
  allowed_methods =
      bytes "GET"
      ∷ bytes "POST"
      ∷ bytes "PUT"
      ∷ bytes "DELETE"
      ∷ bytes "PATCH"
      ∷ bytes "HEAD"
      ∷ bytes "OPTIONS"
      ∷ [];
}

pub record ControlMetrics : Type 0 where
  pub requests_submitted : ℕ
  pub requests_validated : ℕ
  pub requests_rejected : ℕ
  pub batches_created : ℕ
  pub batches_flushed : ℕ
  pub batches_timeout_flushed : ℕ
  pub batches_size_flushed : ℕ
  pub total_validation_time_us : ℕ

abbrev pub no_metrics : ControlMetrics
no_metrics = record {
  requests_submitted = 0;
  requests_validated = 0;
  requests_rejected = 0;
  batches_created = 0;
  batches_flushed = 0;
  batches_timeout_flushed = 0;
  batches_size_flushed = 0;
  total_validation_time_us = 0;
}

-- `poisoned` is the state of the mutex around the queue: a panic under the lock poisons it, and
-- every later `lock().unwrap()` panics.
pub record ControlPlane : Type 0 where
  pub is_initialized : Bool
  pub batch_queue : BatchQueue
  pub poisoned : Bool
  pub metrics : ControlMetrics
  pub next_id : ℕ
  pub tenant_registry : List (Text × TenantLimits)
