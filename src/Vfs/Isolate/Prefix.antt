-- ===== src/Vfs/Isolate/Prefix.antt =====
-- The storage path of an isolate: `prefix_namespace` of src/vfs/isolate.rs.
use mathlib.Core.List.{append_assoc}
use nano_rs.Common.{
  ℕ, ◌≤◌, ◌≡◌, refl, sym, ap, subst, ◌∙◌, ◌≢◌, false, List, [], ◌∷◌, ◌++◌, Text, length, is_empty,
  All, All-append, arith,
}
use nano_rs.Vfs.Types.{VfsResult, ok, err, ◌>>=◌}
use nano_rs.Vfs.Path.{max_path_length, join_parts, too_long}
use nano_rs.Vfs.Path
use nano_rs.Vfs.Path.Split.{NoSlash}
use nano_rs.Vfs.Path.Laws.{IsNormal, IsName, new-IsNormal, new_of_IsNormal, NoNull}
use nano_rs.Vfs.Path.Accept.{new_iff}
use nano_rs.Vfs.Isolate.{separator, prefix_namespace}

-- A namespace that is not empty, with no slash, colon or null byte in it.
pub record IsPlain (ns : Text) : Type 0 where
  pub filled : ns ≢ []
  pub slashless : NoSlash ns
  pub colonless : All (λ c. c ≢ b':') ns
  pub clean : NoNull ns

not-All-middle : (x : ℕ) (a s : Text) → ¬ All (λ c. c ≢ x) (a ++ (x ∷ s))
not-All-middle x [] s h = h.0 refl
not-All-middle x (c ∷ a) s h = not-All-middle x a s h.1

join_parts-prefix :
    (pre p : Text) (ps : List Text) → join_parts ((pre ++ p) ∷ ps) ≡ pre ++ join_parts (p ∷ ps)
unfolding join_parts
join_parts-prefix pre p [] = refl
join_parts-prefix pre p (q ∷ ps) = append_assoc pre p (b'/' ∷ join_parts (q ∷ ps))

prefixed-IsName : (ns p : Text) → IsPlain ns → IsName p → IsName ((ns ++ separator) ++ p)
prefixed-IsName ns p plain name = (
  λ e. append-ne-nil ns _ p e,
  λ e.
      not-All-middle b':' ns (b':' ∷ p)
        (subst (All (λ c. c ≢ b':')) (sym e ∙ append_assoc ns separator p) (omega arith)),
  All-append (λ c. c ≢ b'/') (ns ++ separator) p
      (All-append (λ c. c ≢ b'/') ns separator plain.slashless (omega arith)) name.2,
)
  where
    append-ne-nil : (a b c : Text) → a ++ (b':' ∷ b) ++ c ≢ []
    append-ne-nil [] b c = λ e. cc
    append-ne-nil (x ∷ a) b c = λ e. cc

prefixed_names :
    (ns : Text) (ps : List Text)
    → IsPlain ns
    → ps ≢ []
    → All IsName ps
    → (qs : List Text) × (qs ≢ [])
      × All IsName qs
      × (join_parts qs ≡ (ns ++ separator) ++ join_parts ps)
prefixed_names ns [] plain h all = absurd (h refl)
prefixed_names ns (p ∷ ps) plain h all = (
  ((ns ++ separator) ++ p) ∷ ps,
  λ e. cc,
  (prefixed-IsName ns p plain all.0, all.1),
  join_parts-prefix (ns ++ separator) p ps,
)

-- A plain prefix in front of a path in normal form is in normal form, if it is not too long.
prefixed-IsNormal :
    (ns p : Text)
    → IsPlain ns
    → IsNormal p
    → length (ns ++ (separator ++ p)) ≤ max_path_length
    → IsNormal (ns ++ (separator ++ p))
prefixed-IsNormal ns p plain n short =
    let (qs, some_name, all_names, joined) =
      prefixed_names ns n.names plain n.some_name n.all_names in
    record {
      names = qs;
      some_name = some_name;
      all_names = all_names;
      joined =
          sym (joined ∙ ap (◌++◌ (ns ++ separator)) (sym n.joined) ∙ append_assoc ns separator p);
      clean =
          All-append (λ c. c ≢ 0) ns (separator ++ p) plain.clean
            (omega arith, (omega arith, n.clean));
      short = short;
    }

prefix_plain :
    (ns p q : Text)
    → IsPlain ns
    → IsNormal p
    → Path.new (ns ++ (separator ++ p)) ≡ ok q
    → q ≡ ns ++ (separator ++ p)
prefix_plain ns p q plain n e =
    let short = ((new_iff _ q).0 e).0.short in
    let same = new_of_IsNormal _ (prefixed-IsNormal ns p plain n short) in ground (arith, e, same)

pub >>=-eq-ok {ℓ κ} :
    {A : Type ℓ} {B : Type κ} {value : B} (m : VfsResult A) (next : A → VfsResult B)
    → (m >>= next) ≡ ok value
    → (first : A) × (m ≡ ok first) × (next first ≡ ok value)
>>=-eq-ok (err why) next e = cc
>>=-eq-ok (ok first) next e = (first, refl, e)

is_empty-plain : (ns : Text) → IsPlain ns → is_empty ns ≡ false
is_empty-plain [] plain = absurd (plain.filled refl)
is_empty-plain (c ∷ ns) plain = refl

-- The storage path is the namespace, two colons and the path in normal form.
pub prefix_namespace-eq-ok :
    (ns path q : Text)
    → IsPlain ns
    → prefix_namespace ns path ≡ ok q
    → (p : Text) × (Path.new path ≡ ok p) × (q ≡ ns ++ (separator ++ p))
unfolding prefix_namespace
prefix_namespace-eq-ok ns path q plain e =
    let (p, made, e') = >>=-eq-ok (Path.new path) _ e in
    (
      p,
      made,
      prefix_plain ns p q plain (new-IsNormal path p made) (rw (is_empty-plain ns plain) at e'),
    )
