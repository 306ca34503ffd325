-- ===== src/Sliver/Suggest.antt =====
-- The distance of names and the choice of a similar one, of src/sliver/validation.rs. A name is the
-- list of its characters, each its code point.
pub mod Edits
pub mod Table
pub mod Nearest
use nano_rs.Common.{
  ℕ, zero, suc, ◌+◌, Bool, true, false, ◌&&◌, Option, none, some, List, [], ◌∷◌, Text, length, ltb,
  leb, ◌==◌, if◌then◌else◌,
}

abbrev pub Matrix : Type 0
Matrix = ℕ → ℕ → ℕ

abbrev pub min : ℕ → ℕ → ℕ
min a b = if leb a b then a else b

unfoldable pub put_cell : ℕ → ℕ → ℕ → Matrix → Matrix
put_cell i j v m x y = if x == i && y == j then v else m x y

-- The first column up to a row, and the first row up to a column.
unfoldable pub first_column : ℕ → Matrix → Matrix
unfolding put_cell
first_column zero m = put_cell 0 0 0 m
first_column (suc i) m = put_cell (suc i) 0 (suc i) (first_column i m)

unfoldable pub first_row : ℕ → Matrix → Matrix
unfolding put_cell
first_row zero m = put_cell 0 0 0 m
first_row (suc j) m = put_cell 0 (suc j) (suc j) (first_row j m)

abbrev pub cost : ℕ → ℕ → ℕ
cost a_char b_char = if a_char == b_char then 0 else 1

-- The value of the cell below and to the right.
abbrev pub next_cell : ℕ → ℕ → ℕ → Matrix → ℕ
next_cell i j c m = min (min (m i (suc j) + 1) (m (suc i) j + 1)) (m i j + c)

-- The loop over the characters of `b`.
unfoldable pub fill_row : ℕ → ℕ → ℕ → Text → Matrix → Matrix
unfolding put_cell
fill_row i a_char j [] m = m
fill_row i a_char j (b_char ∷ b) m =
    fill_row i a_char (suc j) b (put_cell (suc i) (suc j) (next_cell i j (cost a_char b_char) m) m)

-- The loop over the characters of `a`.
unfoldable pub fill : ℕ → Text → Text → Matrix → Matrix
unfolding fill_row
fill i [] b m = m
fill i (a_char ∷ a) b m = fill (suc i) a b (fill_row i a_char 0 b m)

unfoldable pub levenshtein_distance : Text → Text → ℕ
unfolding fill first_row first_column
levenshtein_distance [] b = length b
levenshtein_distance (x ∷ a) [] = length (x ∷ a)
levenshtein_distance (x ∷ a) (y ∷ b) =
    let a_len = length (x ∷ a) in
    let b_len = length (y ∷ b) in
    fill 0 (x ∷ a) (y ∷ b) (first_row b_len (first_column a_len (λ i j. 0))) a_len b_len

-- The bytes of a character in UTF-8, and of a name.
unfoldable pub utf8_len : ℕ → ℕ
utf8_len c = if ltb c 128 then 1 else if ltb c 2048 then 2 else if ltb c 65536 then 3 else 4

unfoldable pub byte_len : Text → ℕ
unfolding utf8_len
byte_len [] = 0
byte_len (c ∷ name) = utf8_len c + byte_len name

-- The loop over the candidates with the best match so far.
unfoldable pub better : Text → ℕ → Text → Option (Text × ℕ) → Option (Text × ℕ)
unfolding levenshtein_distance byte_len
better target threshold candidate best =
    let distance = levenshtein_distance target candidate in
    if leb distance threshold && ltb distance (byte_len target)
    then elim best [
      | none ↦ some (candidate, distance)
      | some (s, d) ↦ if ltb distance d then some (candidate, distance) else some (s, d)
    ]
    else best

unfoldable pub best_match : Text → ℕ → List Text → Option (Text × ℕ) → Option (Text × ℕ)
unfolding better
best_match target threshold [] best = best
best_match target threshold (c ∷ candidates) best =
    best_match target threshold candidates (better target threshold c best)

unfoldable pub find_similar_internal : Text → List Text → ℕ → Option Text
unfolding best_match
find_similar_internal target candidates threshold =
    elim (best_match target threshold candidates none) [ none ↦ none | some (s, d) ↦ some s ]
