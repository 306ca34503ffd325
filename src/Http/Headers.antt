-- ===== src/Http/Headers.antt =====
-- `NanoHeaders` of src/http/headers.rs: the values of each header, under its name in lower case.
pub mod Laws
pub mod Refine
use nano_rs.Common.{
  ℕ, Bool, true, false, Option, none, some, List, [], ◌∷◌, ◌++◌, Text, bytes, str_eq, get, put, del,
  has_key, to_lowercase, if◌then◌else◌,
}

pub record NanoHeaders : Type 0 where
  pub headers : List (Text × List Text)

unfoldable pub new : NanoHeaders
new = record { headers = [] }

-- `entry(name).or_default().push(value)`.
unfoldable pub push_value : Text → Text → List (Text × List Text) → List (Text × List Text)
push_value name value m = elim (get name m) [
  | none ↦ put name (value ∷ []) m
  | some values ↦ put name (values ++ (value ∷ [])) m
]

-- The pairs of the server's header map, in order; a value that is no text is the empty text there.
unfoldable pub from_axum_headers : List (Text × Option Text) → NanoHeaders
from_axum_headers pairs = record { headers = go [] pairs }
  where
    go : List (Text × List Text) → List (Text × Option Text) → List (Text × List Text)
    go m [] = m
    go m ((name, value) ∷ pairs) =
        go (push_value (to_lowercase name) (elim value [ none ↦ [] | some v ↦ v ]) m) pairs

abbrev pub set_cookie : Text
set_cookie = bytes "set-cookie"

-- `join(", ")`.
unfoldable pub join_values : List Text → Text
join_values [] = []
join_values (v ∷ []) = v
join_values (v ∷ w ∷ vs) = v ++ (bytes ", " ++ join_values (w ∷ vs))

abbrev first : List Text → Text
first [] = []
first (v ∷ _) = v

-- What a script sees of the values of a header.
unfoldable pub shown : Text → List Text → Text
unfolding join_values
shown name values = if str_eq name set_cookie then first values else join_values values

unfoldable pub lookup : Text → NanoHeaders → Option Text
lookup name h = elim (get (to_lowercase name) h.headers) [
  | none ↦ none
  | some values ↦ some (shown (to_lowercase name) values)
]

unfoldable pub get_set_cookie : NanoHeaders → List Text
get_set_cookie h = elim (get set_cookie h.headers) [ none ↦ [] | some values ↦ values ]

unfoldable pub has : Text → NanoHeaders → Bool
has name h = has_key (to_lowercase name) h.headers

unfoldable pub set : Text → Text → NanoHeaders → NanoHeaders
set name value h = record { headers = put (to_lowercase name) (value ∷ []) h.headers }

unfoldable pub append : Text → Text → NanoHeaders → NanoHeaders
append name value h = record { headers = push_value (to_lowercase name) value h.headers }

unfoldable pub delete : Text → NanoHeaders → NanoHeaders
delete name h = record { headers = del (to_lowercase name) h.headers }

-- The calls of the callback of `for_each`, in the order of the map.
unfoldable pub for_each : NanoHeaders → List (Text × Text)
for_each h = go h.headers
  where
    go : List (Text × List Text) → List (Text × Text)
    go [] = []
    go ((name, values) ∷ m) = (name, shown name values) ∷ go m
