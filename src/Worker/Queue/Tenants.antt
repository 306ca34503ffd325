-- ===== src/Worker/Queue/Tenants.antt =====
-- What becomes of the requests of the tenants that the work queue registers.
use nano_rs.Common.{
  ℕ, ◌<◌, ◌≡◌, refl, inl, inr, Bool, true, false, some, List, [], ◌∷◌, Text, get, put, get-put,
  str_eq_refl, str_eq, str_eq_iff, Bool-cases, arith, if◌then◌else◌,
}
use nano_rs.Control.Defs.{batch_size_max, done, panicked, HandlerTask, TenantLimits, ControlPlane}
use nano_rs.Control.Plane.{
  check_request, check_batch_size, submit_request, register_tenant, tenant_exists,
}
use nano_rs.Control.Plane.Submit.{check_request-cases, validate_request-batch}
use nano_rs.Control.Plane.Accept.{Outcome-cases, check_request-ne-failed}
use nano_rs.Worker.Queue.{queue_tenant_limits, register_all, ensure_tenant}

-- The limits of a tenant let a batch be larger than the control plane allows.
pub record IsOver (c : ControlPlane) (hostname : Text) : Type 0 where
  pub limits : TenantLimits
  pub found : get hostname c.tenant_registry ≡ some limits
  pub over : batch_size_max < limits.max_batch_size

-- Every request of a tenant whose limits are above the largest batch panics, and changes nothing.
pub submit_request_over :
    (now us : ℕ) (c : ControlPlane) (task : HandlerTask)
    → IsOver c task.hostname
    → submit_request now us c task ≡ (panicked, c)
unfolding submit_request check_batch_size
submit_request_over now us c task o = elim (Outcome-cases (check_request now c task)) [
  | inl (v, h) ↦
      let (_, valid, _) = check_request-cases now c task v h in
      let batch = validate_request-batch c now task v valid in
      absurd (ground (arith, o.found, o.over, batch))
  | inr (inl (x, h)) ↦ absurd (check_request-ne-failed x now c task h)
  | inr (inr h) ↦ rw (h, submit_request)
]

registered-IsOver :
    (c c' : ControlPlane) (hostname : Text)
    → register_tenant c hostname queue_tenant_limits ≡ (done tt, c')
    → (c' ≡ record c { tenant_registry = put hostname queue_tenant_limits c.tenant_registry })
      × IsOver c' hostname
unfolding register_tenant
registered-IsOver c c' hostname e =
    let same : c'
        ≡ record c { tenant_registry = put hostname queue_tenant_limits c.tenant_registry } =
      ground (arith, e) in
    (
      same,
      rw same (record {
        limits = queue_tenant_limits;
        found =
            rw
              (
                get-put hostname hostname queue_tenant_limits c.tenant_registry,
                str_eq_refl hostname,
              )
              refl;
        over = omega arith;
      }),
    )

ensure_tenant-IsOver :
    (c c' : ControlPlane) (hostname : Text)
    → tenant_exists c hostname ≡ false
    → ensure_tenant c hostname ≡ done c'
    → IsOver c' hostname
unfolding ensure_tenant
ensure_tenant-IsOver c c' hostname unseen e =
    let r : register_tenant c hostname queue_tenant_limits ≡ (done tt, c') =
      ground (arith, unseen, e) in
    (registered-IsOver c c' hostname r).1

-- A tenant that the queue has not seen is registered, and then each of its requests panics.
pub submit_request-ensure_tenant :
    (now us : ℕ) (c c' : ControlPlane) (task : HandlerTask)
    → tenant_exists c task.hostname ≡ false
    → ensure_tenant c task.hostname ≡ done c'
    → submit_request now us c' task ≡ (panicked, c')
submit_request-ensure_tenant now us c c' task unseen e =
    submit_request_over now us c' task (ensure_tenant-IsOver c c' task.hostname unseen e)

abbrev pub listed : Text → List Text → Bool
listed k [] = false
listed k (h ∷ hs) = if str_eq h k then true else listed k hs

keeps-IsOver :
    (c c' : ControlPlane) (k hostname : Text)
    → IsOver c k
    → register_tenant c hostname queue_tenant_limits ≡ (done tt, c')
    → IsOver c' k
keeps-IsOver c c' k hostname o e = elim (Bool-cases (str_eq hostname k)) [
  | inl same ↦ rw (← (str_eq_iff hostname k).0 same) (registered-IsOver c c' hostname e).1
  | inr other ↦ rw (registered-IsOver c c' hostname e).0 (record {
    limits = o.limits;
    found = rw (get-put hostname k queue_tenant_limits c.tenant_registry, other) o.found;
    over = o.over;
  })
]

register_all-cons :
    (c c' : ControlPlane) (h : Text) (hs : List Text)
    → register_all c (h ∷ hs) ≡ done c'
    → (d : ControlPlane) × (register_tenant c h queue_tenant_limits ≡ (done tt, d))
      × (register_all d hs ≡ done c')
unfolding register_all
register_all-cons c c' h hs e =
    ((register_tenant c h queue_tenant_limits).1, ground (arith, e), ground (arith, e))

register_all-keeps :
    (c c' : ControlPlane) (k : Text) (hs : List Text)
    → IsOver c k
    → register_all c hs ≡ done c'
    → IsOver c' k
unfolding register_all
register_all-keeps c c' k [] o e = let same : c ≡ c' = ground (arith, e) in rw (← same) o
register_all-keeps c c' k (h ∷ hs) o e =
    let (d, first, rest) = register_all-cons c c' h hs e in
    register_all-keeps d c' k hs (keeps-IsOver c d k h o first) rest

register_all-IsOver :
    (c c' : ControlPlane) (k : Text) (hs : List Text)
    → register_all c hs ≡ done c'
    → listed k hs ≡ true
    → IsOver c' k
register_all-IsOver c c' k [] e l = cc
register_all-IsOver c c' k (h ∷ hs) e l =
    let (d, first, rest) = register_all-cons c c' h hs e in
    elim (Bool-cases (str_eq h k)) [
      | inl same ↦
          let o = (registered-IsOver c d h first).1 in
          register_all-keeps d c' k hs (rw ((str_eq_iff h k).0 same) at o) rest
      | inr other ↦ register_all-IsOver d c' k hs rest (ground (arith, l, other))
    ]

-- After startup each request of a hostname of the registry panics.
pub submit_request-register_all :
    (now us : ℕ) (c c' : ControlPlane) (task : HandlerTask) (hostnames : List Text)
    → register_all c hostnames ≡ done c'
    → listed task.hostname hostnames ≡ true
    → submit_request now us c' task ≡ (panicked, c')
submit_request-register_all now us c c' task hostnames e l =
    submit_request_over now us c' task (register_all-IsOver c c' task.hostname hostnames e l)
