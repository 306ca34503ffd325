-- ===== src/Config/Loader/Parse.antt =====
-- What `parse_var_ref` of src/config/loader.rs accepts.
use mathlib.Core.List.{append_assoc, append-nil}
use nano_rs.Common.{
  ℕ, ◌≡◌, sym, subst, ap, ◌∙◌, ◌≢◌, inl, inr, true, Option, none, some, [], ◌∷◌, ◌++◌, Text, All,
  arith, ◌==◌, Bool-cases,
}
use nano_rs.Config.Loader.{var_ref, parse_default, parse_colon, is_name_byte, parse_var_ref}

abbrev pub IsVarName : Text → Type 0
IsVarName = All (λ c. is_name_byte c ≡ true)

abbrev pub IsDefault : Text → Type 0
IsDefault = All (λ c. c ≢ b'}')

-- The text of a reference behind its `${`.
abbrev pub tail_of : Option Text → Text → Text
tail_of none rest = b'}' ∷ rest
tail_of (some d) rest = b':' ∷ b'-' ∷ (d ++ (b'}' ∷ rest))

abbrev pub IsDefaultValue : Option Text → Type 0
IsDefaultValue none = Unit
IsDefaultValue (some d) = IsDefault d

grow : (a : Text) (c : ℕ) (b : Text) → (a ++ (c ∷ [])) ++ b ≡ a ++ (c ∷ b)
grow a c b = append_assoc a (c ∷ []) b

parse_default-close :
    (n d e rest : Text)
    → IsDefault e
    → parse_default n d (e ++ (b'}' ∷ rest)) ≡ var_ref n (some (d ++ e)) rest
unfolding parse_default
parse_default-close n d [] rest h = ap (λ t. var_ref n (some t) rest) (sym (append-nil _))
parse_default-close n d (c ∷ e) rest h =
    ground (arith, parse_default-close n (d ++ (c ∷ [])) e rest h.1, grow d c e)

-- A reference in the text is read as such.
pub parse_var_ref-close :
    (n m : Text) (d : Option Text) (rest : Text)
    → IsVarName m
    → IsDefaultValue d
    → parse_var_ref n (m ++ tail_of d rest) ≡ var_ref (n ++ m) d rest
unfolding parse_var_ref parse_colon
parse_var_ref-close n [] none rest h k = ap (λ t. var_ref t none rest) (sym (append-nil _))
parse_var_ref-close n [] (some d) rest h k =
    parse_default-close n [] d rest k ∙ ap (λ t. var_ref t (some d) rest) (sym (append-nil _))
parse_var_ref-close n (c ∷ m) d rest h k =
    ground (arith, parse_var_ref-close (n ++ (c ∷ [])) m d rest h.1 k, grow n c m)

-- What the loop over a default value has read.
record ReadsDefault (n d s : Text) (m : Text) (o : Option Text) (rest : Text) : Type 0 where
  read : Text
  clean : IsDefault read
  same : m ≡ n
  whole : o ≡ some (d ++ read)
  split : s ≡ read ++ (b'}' ∷ rest)

parse_default-var_ref :
    (n d s : Text) {m : Text} {o : Option Text} {rest : Text}
    → parse_default n d s ≡ var_ref m o rest
    → ReadsDefault n d s m o rest
unfolding parse_default
parse_default-var_ref n d [] e = cc
parse_default-var_ref n d (c ∷ s) e = elim (Bool-cases (c == b'}')) [
  | inl close ↦ record {
    read = [];
    clean = tt;
    same = ground arith;
    whole = ground (arith, append-nil d);
    split = ground arith;
  }
  | inr other ↦
      let r = parse_default-var_ref n (d ++ (c ∷ [])) s (rw other at e) in
      record {
        read = c ∷ r.read;
        clean = (ground arith, r.clean);
        same = r.same;
        whole = r.whole ∙ ap some (grow d c r.read);
        split = ap (λ t. c ∷ t) r.split;
      }
]

-- What the loop over a name has read.
pub record ReadsName (n s : Text) (m : Text) (o : Option Text) (rest : Text) : Type 0 where
  pub read : Text
  pub clean : IsVarName read
  pub default_clean : IsDefaultValue o
  pub whole : m ≡ n ++ read
  pub split : s ≡ read ++ tail_of o rest

colon :
    (n s m : Text) (o : Option Text) (rest : Text)
    → parse_colon n s ≡ var_ref m o rest
    → ReadsName n (b':' ∷ s) m o rest
unfolding parse_colon
colon n [] m o rest e = cc
colon n (c ∷ s) m o rest e = elim (Bool-cases (c == b'-')) [
  | inl dash ↦
      let r = parse_default-var_ref n [] s (rw dash at e) in
      record {
        read = [];
        clean = tt;
        default_clean = subst IsDefaultValue (sym r.whole) r.clean;
        whole = r.same ∙ sym (append-nil n);
        split = ground (arith, r.split, ap (λ x. tail_of x rest) r.whole);
      }
  | inr other ↦ ground (arith, e)
]

pub parse_var_ref-var_ref :
    (n s m : Text) (o : Option Text) (rest : Text)
    → parse_var_ref n s ≡ var_ref m o rest
    → ReadsName n s m o rest
unfolding parse_var_ref
parse_var_ref-var_ref n [] m o rest e = cc
parse_var_ref-var_ref n (c ∷ s) m o rest e = elim (Bool-cases (c == b'}')) [
  | inl close ↦ record {
    read = [];
    clean = tt;
    default_clean = ground (arith, e);
    whole = ground (arith, e, append-nil n);
    split = ground (arith, e);
  }
  | inr open_yet ↦ elim (Bool-cases (c == b':')) [
    | inl is_colon ↦
        let r = colon n s m o rest (rw (open_yet, is_colon) at e) in
        let at_colon : c ≡ b':' = ground arith in
        record {
          read = r.read;
          clean = r.clean;
          default_clean = r.default_clean;
          whole = r.whole;
          split = ap (λ x. x ∷ s) at_colon ∙ r.split;
        }
    | inr other ↦ elim (Bool-cases (is_name_byte c)) [
      | inl named ↦
          let r =
            parse_var_ref-var_ref (n ++ (c ∷ [])) s m o rest (rw (open_yet, other, named) at e) in
          record {
            read = c ∷ r.read;
            clean = (named, r.clean);
            default_clean = r.default_clean;
            whole = r.whole ∙ grow n c r.read;
            split = ap (λ t. c ∷ t) r.split;
          }
      | inr bad ↦ cc (rw (open_yet, other, bad) at e)
    ]
  ]
]
