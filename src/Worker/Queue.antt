-- ===== src/Worker/Queue.antt =====
-- The tenants that the `WorkQueue` of src/worker/queue.rs registers in its control plane.
pub mod Tenants
pub mod Pools
pub mod Routing
pub mod Counters
use nano_rs.Common.{ℕ, ◌*◌, Bool, List, [], ◌∷◌, Text, bytes, if◌then◌else◌}
use nano_rs.Control.Defs.{Outcome, done, failed, panicked, TenantLimits, ControlPlane}
use nano_rs.Control.Plane.{register_tenant, tenant_exists}

-- The limits of a tenant that has none of its own.
abbrev pub queue_tenant_limits : TenantLimits
queue_tenant_limits = record {
  max_script_size = 10 * 1024 * 1024;
  max_timeout_ms = 30000;
  max_batch_size = 100;
  allowed_methods = bytes "GET" ∷ bytes "POST" ∷ bytes "PUT" ∷ bytes "DELETE" ∷ [];
}

-- The hostnames of the registry of apps, at startup. A panic ends it.
unfoldable pub register_all : ControlPlane → List Text → Outcome ControlPlane
register_all c [] = done c
register_all c (hostname ∷ hostnames) =
    let (registered, c') = register_tenant c hostname queue_tenant_limits in
    let rest = register_all c' hostnames in
    elim registered [ done _ ↦ rest | failed e ↦ failed e | panicked ↦ panicked ]

-- A hostname that is seen for the first time.
unfoldable pub ensure_tenant : ControlPlane → Text → Outcome ControlPlane
ensure_tenant c hostname =
    if tenant_exists c hostname
    then done c
    else let (registered, c') = register_tenant c hostname queue_tenant_limits in
      elim registered [ done _ ↦ done c' | failed e ↦ failed e | panicked ↦ panicked ]
