-- ===== src/Vfs/Path/Join.antt =====
-- `VfsPath.join`, `parent` and `file_name` on paths in normal form.
use nano_rs.Common.{
  ◌≤◌, ◌≡◌, refl, sym, ap, ◌∙◌, ◌≢◌, false, List, [], ◌∷◌, ◌++◌, none, some, Text, length, is_empty,
  All-append, arith,
}
use mathlib.Core.List.{append_assoc}
use nano_rs.Vfs.Types.{ok}
use nano_rs.Vfs.Path.{join_parts, max_path_length, split_last, parent, file_name, join}
use nano_rs.Vfs.Path.Split.{NoSlash}
use nano_rs.Vfs.Path.Laws.{IsName, NoNull, IsNormal, join_parts-ne-nil, new_of_IsNormal}

split_last_of_NoSlash : (n : Text) → NoSlash n → split_last n ≡ none
unfolding split_last
split_last_of_NoSlash [] h = refl
split_last_of_NoSlash (c ∷ n) h = ground (arith, split_last_of_NoSlash n h.1)

split_last-append : (d n : Text) → NoSlash n → split_last (d ++ (b'/' ∷ n)) ≡ some (d, n)
unfolding split_last
split_last-append [] n h = ground (arith, split_last_of_NoSlash n h)
split_last-append (c ∷ d) n h = ground (arith, split_last-append d n h)

append_names :
    (ps : List Text) (n : Text) → ps ≢ [] → join_parts (ps ++ n ∷ []) ≡ join_parts ps ++ (b'/' ∷ n)
unfolding join_parts
append_names [] n h = absurd (h refl)
append_names (p ∷ []) n h = refl
append_names (p ∷ q ∷ ps) n h =
    ap (λ t. p ++ (b'/' ∷ t)) (append_names (q ∷ ps) n (λ e. cc))
    ∙ sym (append_assoc p (b'/' ∷ join_parts (q ∷ ps)) (b'/' ∷ n))

append-ne-nil : (ps : List Text) (n : Text) → ps ++ n ∷ [] ≢ []
append-ne-nil [] n = λ e. cc
append-ne-nil (p ∷ ps) n = λ e. cc

is_empty_of_ne : (p : Text) → p ≢ [] → is_empty p ≡ false
is_empty_of_ne [] h = absurd (h refl)
is_empty_of_ne (c ∷ p) h = refl

pub joined-IsNormal :
    (p n : Text)
    → IsNormal p
    → IsName n
    → NoNull n
    → length (p ++ (b'/' ∷ n)) ≤ max_path_length
    → IsNormal (p ++ (b'/' ∷ n))
joined-IsNormal p n h name clean short = record {
  names = h.names ++ n ∷ [];
  some_name = append-ne-nil h.names n;
  all_names = All-append IsName h.names (n ∷ []) h.all_names (name, tt);
  joined = ap (λ t. t ++ (b'/' ∷ n)) h.joined ∙ sym (append_names h.names n h.some_name);
  clean = All-append (λ c. c ≢ 0) p (b'/' ∷ n) h.clean (omega arith, clean);
  short = short;
}

-- Joining a name to a path in normal form makes the path whose parent and name these are, as
-- long as it is not too long.
pub join-parent :
    (p n : Text)
    → IsNormal p
    → IsName n
    → NoNull n
    → length (p ++ (b'/' ∷ n)) ≤ max_path_length
    → (join p n ≡ ok (p ++ (b'/' ∷ n)))
      × (parent (p ++ (b'/' ∷ n)) ≡ some p)
      × (file_name (p ++ (b'/' ∷ n)) ≡ some n)
unfolding join parent file_name
join-parent p n h name clean short =
    let last = split_last-append p n name.2 in
    let filled : p ≢ [] =
      λ e. join_parts-ne-nil h.names h.some_name h.all_names (sym h.joined ∙ e) in
    (
      rw (is_empty_of_ne p filled) (new_of_IsNormal _ (joined-IsNormal p n h name clean short)),
      ground (arith, last),
      ground (arith, last),
    )
