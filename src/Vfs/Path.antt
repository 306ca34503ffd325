-- ===== src/Vfs/Path.antt =====
-- `VfsPath` of src/vfs/types.rs: splitting, normalising and checking a path.
pub mod Split
pub mod Laws
pub mod Accept
pub mod Join
use nano_rs.Common.{
  ℕ, Bool, true, false, not, Option, none, some, List, [], ◌∷◌, ◌++◌, Text, bytes, str_eq, contains,
  length, is_empty, keep, ltb, ◌==◌, if◌then◌else◌,
}
use nano_rs.Vfs.Types.{invalid_path, VfsResult, ok, err}

abbrev pub max_path_length : ℕ
max_path_length = 4096

-- `trim_start_matches('/')` and `trim_end_matches('/')`.
unfoldable pub trim_start : Text → Text
trim_start [] = []
trim_start (c ∷ s) = let rest = trim_start s in if c == b'/' then rest else c ∷ s

trim_cons : ℕ → Text → Text
trim_cons c [] = if c == b'/' then [] else c ∷ []
trim_cons c (d ∷ s) = c ∷ d ∷ s

unfoldable pub trim_end : Text → Text
unfolding trim_cons
trim_end [] = []
trim_end (c ∷ s) = trim_cons c (trim_end s)

-- `split('/')`: the first part, and those behind it.
unfoldable pub split_parts : Text → Text × List Text
split_parts [] = ([], [])
split_parts (c ∷ s) =
    let (part, parts) = split_parts s in if c == b'/' then ([], part ∷ parts) else (c ∷ part, parts)

unfoldable pub split : Text → List Text
split s = let (part, parts) = split_parts s in part ∷ parts

-- `join("/")`.
unfoldable pub join_parts : List Text → Text
join_parts [] = []
join_parts (p ∷ []) = p
join_parts (p ∷ q ∷ ps) = p ++ (b'/' ∷ join_parts (q ∷ ps))

abbrev pub nonempty : Text → Bool
nonempty s = not (is_empty s)

unfoldable pub normalize : Text → Text
normalize path = join_parts (keep nonempty (split (trim_end (trim_start path))))

abbrev pub dotdot : Text
dotdot = bytes ".."

unfoldable pub any_dotdot : List Text → Bool
any_dotdot [] = false
any_dotdot (p ∷ ps) = if str_eq p dotdot then true else any_dotdot ps

abbrev pub too_long : Text
too_long = bytes "Path exceeds maximum length of 4096 bytes"

abbrev pub null_byte : Text
null_byte = bytes "Path contains null bytes"

abbrev pub parent_segment : Text
parent_segment = bytes "Path contains '..' segment which is not allowed"

abbrev pub empty_path : Text
empty_path = bytes "Path is empty after normalization"

-- A `VfsPath` is the text that it wraps.
unfoldable pub new : Text → VfsResult Text
new path =
    if ltb max_path_length (length path)
    then err (invalid_path path too_long)
    else if contains 0 path
    then err (invalid_path path null_byte)
    else if any_dotdot (split (normalize path))
    then err (invalid_path path parent_segment)
    else if is_empty (normalize path)
    then err (invalid_path path empty_path)
    else ok (normalize path)

-- The text before and behind the last slash, if there is one (`rfind`).
unfoldable pub split_last : Text → Option (Text × Text)
split_last [] = none
split_last (c ∷ s) = elim (split_last s) [
  | some (d, n) ↦ some (c ∷ d, n)
  | none ↦ if c == b'/' then some ([], s) else none
]

unfoldable pub parent : Text → Option Text
parent p = elim (split_last p) [ some (d, n) ↦ some d | none ↦ none ]

unfoldable pub file_name : Text → Option Text
file_name p = elim (split_last p) [ some (d, n) ↦ some n | none ↦ some p ]

unfoldable pub join : Text → Text → VfsResult Text
join p other = new (if is_empty p then other else p ++ (b'/' ∷ other))
