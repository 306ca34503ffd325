-- ===== src/Vfs/Path/Accept.antt =====
-- The texts that `VfsPath.new` accepts, as a condition on their parts.
use nano_rs.Common.{
  ◌≤◌, ◌≡◌, ◌∙◌, ◌≢◌, ◌↔◌, false, List, [], ◌∷◌, Text, contains, length, keep, All, arith,
}
use nano_rs.Vfs.Types.{ok}
use nano_rs.Vfs.Path.{split, join_parts, nonempty, dotdot, max_path_length, new}
use nano_rs.Vfs.Path.Split.{NoSlash, split-NoSlash, normalize_lem}
use nano_rs.Vfs.Path.Laws.{
  IsName, names_in, split-join_parts_ne, join_parts-ne-nil, IsName-NoSlash, IsName-any_dotdot,
  names_in-IsName, new-cases,
}

-- The condition on a text as it stands: no part between its slashes is "..", and one is not empty.
pub record IsAccepted (p : Text) : Type 0 where
  pub short : length p ≤ max_path_length
  pub clean : contains 0 p ≡ false
  pub safe : All (λ s. s ≢ dotdot) (split p)
  pub some_name : names_in p ≢ []

keep-safe :
    (ps : List Text) → All NoSlash ps → All (λ s. s ≢ dotdot) ps → All IsName (keep nonempty ps)
keep-safe [] h d = tt
keep-safe ([] ∷ ps) h d = keep-safe ps h.1 d.1
keep-safe ((c ∷ p) ∷ ps) h d = ((λ e. cc, d.0, h.0), keep-safe ps h.1 d.1)

safe-keep : (ps : List Text) → All IsName (keep nonempty ps) → All (λ s. s ≢ dotdot) ps
safe-keep [] h = tt
safe-keep ([] ∷ ps) h = (λ e. cc, safe-keep ps h)
safe-keep ((c ∷ p) ∷ ps) h = (h.0.1, safe-keep ps h.1)

new_of_IsAccepted : (p : Text) → IsAccepted p → new p ≡ ok (join_parts (names_in p))
unfolding new
new_of_IsAccepted p a =
    let named = keep-safe (split p) (split-NoSlash p) a.safe in
    let apart = split-join_parts_ne (names_in p) a.some_name (IsName-NoSlash _ named) in
    rw (normalize_lem p, apart, IsName-any_dotdot _ named)
      (ground (arith, a.short, a.clean, join_parts-ne-nil (names_in p) a.some_name named))

IsAccepted-of_new : (p q : Text) → new p ≡ ok q → IsAccepted p
IsAccepted-of_new p q h =
    let (short, clean, safe, filled, e) = new-cases p q h in
    let (all_names, some_name) = names_in-IsName p filled safe in
    record {
      short = short;
      clean = clean;
      safe = safe-keep (split p) all_names;
      some_name = some_name;
    }

-- A text is accepted exactly on that condition, and its value is the join of its parts that are
-- not empty.
pub new_iff : (p q : Text) → (new p ≡ ok q) ↔ (IsAccepted p × (q ≡ join_parts (names_in p)))
new_iff p q = (
  λ h. (IsAccepted-of_new p q h, (new-cases p q h).4 ∙ normalize_lem p),
  λ h. rw h.1 (new_of_IsAccepted p h.0),
)
