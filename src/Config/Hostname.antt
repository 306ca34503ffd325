-- ===== src/Config/Hostname.antt =====
-- The tests on text that the validation of src/config uses: substrings, splitting at dots and
-- `is_valid_hostname` of src/config/mod.rs.
pub mod Grammar
use nano_rs.Common.{
  ℕ, ◌-◌, Bool, true, false, not, ◌&&◌, ◌||◌, List, [], ◌∷◌, ◌++◌, Text, bytes, is_empty, length,
  leb, ltb, ◌==◌, if◌then◌else◌,
}

-- `starts_with('.')` on what follows a dot.
abbrev pub starts_with : ℕ → Text → Bool
starts_with b [] = false
starts_with b (c ∷ s) = c == b

-- `contains("..")`.
unfoldable pub contains_dotdot : Text → Bool
contains_dotdot [] = false
contains_dotdot (c ∷ s) = (c == b'.' && starts_with b'.' s) || contains_dotdot s

-- `split('.')`: the first label, and those behind it.
unfoldable pub split_labels : Text → Text × List Text
split_labels [] = ([], [])
split_labels (c ∷ s) =
    let (label, labels) = split_labels s in
    if c == b'.' then ([], label ∷ labels) else (c ∷ label, labels)

abbrev pub is_ascii_alphanumeric : ℕ → Bool
is_ascii_alphanumeric c =
    (leb b'0' c && leb c b'9') || (leb b'A' c && leb c b'Z') || (leb b'a' c && leb c b'z')

abbrev pub is_label_byte : ℕ → Bool
is_label_byte c = is_ascii_alphanumeric c || c == b'-'

-- The loop over the bytes of a label.
unfoldable pub all_label_bytes : Text → Bool
all_label_bytes [] = true
all_label_bytes (c ∷ s) = if not (is_label_byte c) then false else all_label_bytes s

-- `bytes[bytes.len() - 1]` of a label that is not empty.
abbrev pub ends_with : ℕ → Text → Bool
ends_with b [] = false
ends_with b (c ∷ []) = c == b
ends_with b (c ∷ d ∷ s) = ends_with b (d ∷ s)

unfoldable pub is_valid_label : Text → Bool
unfolding all_label_bytes
is_valid_label label =
    if is_empty label
    then false
    else if ltb 63 (length label)
    then false
    else if starts_with b'-' label || ends_with b'-' label
    then false
    else all_label_bytes label

-- The loop over the labels.
unfoldable pub all_labels : List Text → Bool
unfolding is_valid_label
all_labels [] = true
all_labels (label ∷ labels) = if not (is_valid_label label) then false else all_labels labels

unfoldable pub is_valid_hostname : Text → Bool
unfolding split_labels all_labels
is_valid_hostname hostname =
    if is_empty hostname
    then false
    else if ltb 253 (length hostname)
    then false
    else let (label, labels) = split_labels hostname in all_labels (label ∷ labels)
