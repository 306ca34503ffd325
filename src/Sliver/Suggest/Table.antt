-- ===== src/Sliver/Suggest/Table.antt =====
-- The matrix of `levenshtein_distance` holds the distances of the beginnings of both texts.
use nano_rs.Common.{
  ℕ, zero, suc, ◌+◌, ◌≤◌, ◌≡◌, ◌≢◌, refl, sym, ap, subst, ◌∙◌, ◌⊎◌, inl, inr, [], ◌∷◌, Text, length,
  arith,
}
use nano_rs.Sliver.Suggest.{
  Matrix, cost, next_cell, put_cell, first_column, first_row, fill_row, fill, levenshtein_distance,
}
use nano_rs.Sliver.Suggest.Edits.{distance, onto, IsLeast, distance-IsLeast, distance_none}

put_cell_self : (i j v : ℕ) (m : Matrix) → put_cell i j v m i j ≡ v
unfolding put_cell
put_cell_self i j v m = ground arith

put_cell_ne : (i j v x y : ℕ) (m : Matrix) → (x ≢ i) ⊎ (y ≢ j) → put_cell i j v m x y ≡ m x y
unfolding put_cell
put_cell_ne i j v x y m (inl n) = ground (arith, n)
put_cell_ne i j v x y m (inr n) = ground (arith, n)

-- A row from a column on: `p` and `q` are the characters before, the last one first.
Row : Matrix → ℕ → ℕ → Text → Text → Text → Type 0
Row m i j p q [] = m i j ≡ distance p q
Row m i j p q (c ∷ b) = (m i j ≡ distance p q) × Row m i (suc j) p (c ∷ q) b

Row-here : (m : Matrix) (i j : ℕ) (p q b : Text) → Row m i j p q b → m i j ≡ distance p q
unfolding Row
Row-here m i j p q [] r = r
Row-here m i j p q (c ∷ b) r = r.0

Row-put_cell :
    (m : Matrix) (k l v i j : ℕ) (p q b : Text)
    → i ≢ k
    → Row m i j p q b
    → Row (put_cell k l v m) i j p q b
unfolding Row
Row-put_cell m k l v i j p q [] n r = put_cell_ne k l v i j m (inl n) ∙ r
Row-put_cell m k l v i j p q (c ∷ b) n r =
    (put_cell_ne k l v i j m (inl n) ∙ r.0, Row-put_cell m k l v i (suc j) p (c ∷ q) b n r.1)

-- A row changes only behind a column.
fill_row_apart :
    (i c j : ℕ) (b : Text) (m : Matrix) (x y : ℕ)
    → (x ≢ suc i) ⊎ (y ≤ j)
    → fill_row i c j b m x y ≡ m x y
unfolding fill_row
fill_row_apart i c j [] m x y n = refl
fill_row_apart i c j (d ∷ b) m x y (inl n) =
    fill_row_apart i c (suc j) b _ x y (inl n) ∙ put_cell_ne (suc i) (suc j) _ x y m (inl n)
fill_row_apart i c j (d ∷ b) m x y (inr n) =
    fill_row_apart i c (suc j) b _ x y (inr (omega (arith, n)))
    ∙ put_cell_ne (suc i) (suc j) _ x y m (inr (λ e. omega (arith, e, n)))

fill_row-Row :
    (i c j : ℕ) (p q b : Text) (m : Matrix)
    → Row m i j p q b
    → m (suc i) j ≡ distance (c ∷ p) q
    → Row (fill_row i c j b m) (suc i) j (c ∷ p) q b
unfolding Row fill_row distance
fill_row-Row i c j p q [] m r e = e
fill_row-Row i c j p q (d ∷ b) m r e =
    let v = next_cell i j (cost c d) m in
    let m' = put_cell (suc i) (suc j) v m in
    let right : m i (suc j) ≡ distance p (d ∷ q) = Row-here m i (suc j) p (d ∷ q) b r.1 in
    let value : v ≡ distance (c ∷ p) (d ∷ q) = rw (right, e, r.0) refl in
    (
      fill_row_apart i c (suc j) b m' (suc i) j (inr (omega arith))
          ∙ put_cell_ne (suc i) (suc j) v (suc i) j m (inr (λ e. omega (arith, e)))
          ∙ e,
      fill_row-Row i c (suc j) p (d ∷ q) b m'
          (Row-put_cell m (suc i) (suc j) v i (suc j) p (d ∷ q) b (λ e. omega (arith, e)) r.1)
          (put_cell_self (suc i) (suc j) v m ∙ value),
    )

-- The first column below a row.
IsColumn : Matrix → ℕ → Text → Type 0
IsColumn m i [] = Unit
IsColumn m i (c ∷ a) = (m (suc i) 0 ≡ suc i) × IsColumn m (suc i) a

IsColumn-fill_row :
    (i c : ℕ) (b : Text) (m : Matrix) (k : ℕ) (a : Text)
    → IsColumn m k a
    → IsColumn (fill_row i c 0 b m) k a
unfolding IsColumn
IsColumn-fill_row i c b m k [] v = tt
IsColumn-fill_row i c b m k (d ∷ a) v = (
  fill_row_apart i c 0 b m (suc k) 0 (inr (omega arith)) ∙ v.0,
  IsColumn-fill_row i c b m (suc k) a v.1,
)

fill-Row :
    (i : ℕ) (p a b : Text) (m : Matrix)
    → length p ≡ i
    → Row m i 0 p [] b
    → IsColumn m i a
    → Row (fill i a b m) (i + length a) 0 (onto p a) [] b
unfolding fill onto IsColumn distance
fill-Row i p [] b m l r v = subst (λ k. Row m k 0 p [] b) (omega arith) r
fill-Row i p (c ∷ a) b m l r v =
    let below = fill_row-Row i c 0 p [] b m r (v.0 ∙ ap suc (sym l)) in
    subst (λ k. Row (fill i (c ∷ a) b m) k 0 (onto p (c ∷ a)) [] b) (omega arith)
      (fill-Row (suc i) (c ∷ p) a b (fill_row i c 0 b m) (ap suc l) below
        (IsColumn-fill_row i c b m (suc i) a v.1))

-- The last cell of a row.
Row-last :
    (m : Matrix) (i j : ℕ) (p q b : Text)
    → Row m i j p q b
    → m i (j + length b) ≡ distance p (onto q b)
unfolding Row onto
Row-last m i j p q [] r = ap (m i) (omega arith) ∙ r
Row-last m i j p q (c ∷ b) r =
    let later : j + suc (length b) ≡ suc j + length b = omega arith in
    ap (m i) later ∙ Row-last m i (suc j) p (c ∷ q) b r.1

-- The matrix before the loops.
first_column-cell : (n x : ℕ) (m : Matrix) → x ≤ n → first_column n m x 0 ≡ x
unfolding first_column put_cell
first_column-cell zero x m le = ground (arith, le)
first_column-cell (suc n) x m le = ground (arith, le, first_column-cell n x m)

first_row_apart : (n x y : ℕ) (m : Matrix) → x ≢ 0 → first_row n m x y ≡ m x y
unfolding first_row put_cell
first_row_apart zero x y m ne = ground (arith, ne)
first_row_apart (suc n) x y m ne = ground (arith, ne, first_row_apart n x y m ne)

first_row-cell : (n y : ℕ) (m : Matrix) → y ≤ n → first_row n m 0 y ≡ y
unfolding first_row put_cell
first_row-cell zero y m le = ground (arith, le)
first_row-cell (suc n) y m le = ground (arith, le, first_row-cell n y m)

starts_with_distances :
    (m : Matrix) (j : ℕ) (q b : Text)
    → length q ≡ j
    → ((y : ℕ) → y ≤ j + length b → m 0 y ≡ y)
    → Row m 0 j [] q b
unfolding Row distance
starts_with_distances m j q [] l v = v j (omega arith) ∙ sym l
starts_with_distances m j q (c ∷ b) l v = (
  v j (omega arith) ∙ sym l,
  starts_with_distances m (suc j) (c ∷ q) b (ap suc l) (λ y le. v y (omega (arith, le))),
)

starts_with_numbers :
    (m : Matrix) (i : ℕ) (a : Text)
    → ((x : ℕ) → x ≢ 0 → x ≤ i + length a → m x 0 ≡ x)
    → IsColumn m i a
unfolding IsColumn
starts_with_numbers m i [] v = tt
starts_with_numbers m i (c ∷ a) v = (
  v (suc i) (λ e. omega (arith, e)) (omega arith),
  starts_with_numbers m (suc i) a (λ x ne le. v x ne (omega (arith, le))),
)

length-onto : (p a : Text) → length (onto p a) ≡ length p + length a
unfolding onto
length-onto p [] = omega arith
length-onto p (c ∷ a) = omega (arith, length-onto (c ∷ p) a)

last-fill :
    (a b : Text) (m : Matrix)
    → ((y : ℕ) → y ≤ length b → m 0 y ≡ y)
    → ((x : ℕ) → x ≢ 0 → x ≤ length a → m x 0 ≡ x)
    → fill 0 a b m (length a) (length b) ≡ distance (onto [] a) (onto [] b)
last-fill a b m row column =
    let table =
      fill-Row 0 [] a b m refl
        (starts_with_distances m 0 [] b refl (λ y le. row y (omega (arith, le))))
        (starts_with_numbers m 0 a (λ x ne le. column x ne (omega (arith, le)))) in
    let last = Row-last (fill 0 a b m) (0 + length a) 0 (onto [] a) [] b table in
    ap (λ x. fill 0 a b m x (length b)) (omega arith)
    ∙ ap (fill 0 a b m (0 + length a)) (omega arith)
    ∙ last

levenshtein_distance-distance :
    (a b : Text) → levenshtein_distance a b ≡ distance (onto [] a) (onto [] b)
unfolding levenshtein_distance distance onto
levenshtein_distance-distance [] b = omega (arith, length-onto [] b)
levenshtein_distance-distance (x ∷ a) [] =
    omega (arith, length-onto [] (x ∷ a), distance_none (onto [] (x ∷ a)))
levenshtein_distance-distance (x ∷ a) (y ∷ b) =
    let columns = first_column (length (x ∷ a)) (λ i j. 0) in
    last-fill (x ∷ a) (y ∷ b) (first_row (length (y ∷ b)) columns)
      (λ k le. first_row-cell (length (y ∷ b)) k columns le)
      (λ k ne le.
        first_row_apart (length (y ∷ b)) k 0 columns ne
        ∙ first_column-cell (length (x ∷ a)) k (λ i j. 0) le)

-- The distance of two texts is the least number of edits of one character, a replacement, a
-- deletion or an insertion, that make the second of the first.
pub levenshtein_distance-IsLeast : (a b : Text) → IsLeast (levenshtein_distance a b) a b
levenshtein_distance-IsLeast a b =
    subst (λ d. IsLeast d a b) (sym (levenshtein_distance-distance a b)) (distance-IsLeast a b)
