-- ===== src/Http/Router/Latest.antt =====
-- The route that a router of src/http/router.rs finds.
use nano_rs.Common.{
  ◌≡◌, refl, ap, ◌∙◌, ◌≢◌, some, List, [], ◌∷◌, ◌++◌, Text, All, get-put, to_lowercase, str_eq,
  if◌then◌else◌, arith,
}
use nano_rs.Http.Router.{
  RouteTarget, VirtualHostRouter, new, register, resolve, before_colon, host_of,
}

unfoldable pub register_all : List (Text × RouteTarget) → VirtualHostRouter → VirtualHostRouter
register_all [] r = r
register_all ((h, t) ∷ routes) r = register_all routes (register h t r)

-- The last target given under a hostname, in any case.
unfoldable pub latest : Text → RouteTarget → List (Text × RouteTarget) → RouteTarget
latest host found [] = found
latest host found ((h, t) ∷ routes) =
    latest host (if str_eq (to_lowercase h) (to_lowercase host) then t else found) routes

resolve-register :
    (host h : Text) (t : RouteTarget) (r : VirtualHostRouter)
    → resolve host (register h t r)
      ≡ (if str_eq (to_lowercase h) (to_lowercase host) then t else resolve host r)
unfolding resolve register
resolve-register host h t r =
    ground (arith, get-put (to_lowercase h) (to_lowercase host) t r.routes)

resolve-latest :
    (host : Text) (routes : List (Text × RouteTarget)) (r : VirtualHostRouter)
    → resolve host (register_all routes r) ≡ latest host (resolve host r) routes
unfolding register_all latest
resolve-latest host [] r = refl
resolve-latest host ((h, t) ∷ routes) r =
    resolve-latest host routes (register h t r)
    ∙ ap (λ x. latest host x routes) (resolve-register host h t r)

before_colon-append :
    (h port : Text) → All (λ c. c ≢ b':') h → before_colon (h ++ (b':' ∷ port)) ≡ h
unfolding before_colon
before_colon-append [] port v = refl
before_colon-append (c ∷ h) port v = ground (arith, before_colon-append h port v.1)

-- A request for a host with a port goes to the last target that was registered under the hostname,
-- in any case, and to the default if there is none.
pub resolve-host_of :
    (h port : Text) (routes : List (Text × RouteTarget)) (default : RouteTarget)
    → All (λ c. c ≢ b':') h
    → resolve (host_of (some (h ++ (b':' ∷ port)))) (register_all routes (new default))
      ≡ latest h default routes
unfolding host_of new resolve
resolve-host_of h port routes default v =
    ap (λ x. resolve x (register_all routes (new default))) (before_colon-append h port v)
    ∙ resolve-latest h routes (new default)
