-- ===== src/Http/Router.antt =====
-- `VirtualHostRouter` of src/http/router.rs: the route of a hostname.
pub mod Latest
use nano_rs.Common.{
  ℕ, Bool, Option, none, some, List, [], ◌∷◌, Text, bytes, get, put, to_lowercase, ◌==◌,
  if◌then◌else◌, length,
}
use nano_rs.Http.Serve.{HandlerType, static_response}

pub record RouteTarget : Type 0 where
  pub hostname : Text
  pub handler_type : HandlerType

pub record VirtualHostRouter : Type 0 where
  pub routes : List (Text × RouteTarget)
  pub default : RouteTarget

unfoldable pub new : RouteTarget → VirtualHostRouter
new default = record { routes = []; default = default }

abbrev pub route_count : VirtualHostRouter → ℕ
route_count r = length r.routes

unfoldable pub register : Text → RouteTarget → VirtualHostRouter → VirtualHostRouter
unfolding put
register hostname target r = record r { routes = put (to_lowercase hostname) target r.routes }

unfoldable pub resolve : Text → VirtualHostRouter → RouteTarget
unfolding get
resolve host r = elim (get (to_lowercase host) r.routes) [ some target ↦ target | none ↦ r.default ]

abbrev pub default_router : VirtualHostRouter
default_router = record {
  routes = [];
  default = record {
    hostname = bytes "default";
    handler_type = static_response (bytes "NANO Runtime");
  };
}

-- `split(':').next()`.
unfoldable pub before_colon : Text → Text
before_colon [] = []
before_colon (c ∷ s) = let rest = before_colon s in if c == b':' then [] else c ∷ rest

-- The host of a request, from its header if this is there and is text.
unfoldable pub host_of : Option Text → Text
unfolding before_colon
host_of none = bytes "default"
host_of (some header) = before_colon header
