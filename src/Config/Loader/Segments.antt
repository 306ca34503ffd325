-- ===== src/Config/Loader/Segments.antt =====
-- `substitute_env_vars` of src/config/loader.rs against a grammar of its texts.
use nano_rs.Common.{
  ℕ, zero, suc, ◌≤◌, ◌<◌, ◌≡◌, refl, sym, subst, ap, ◌∙◌, ◌≢◌, ◌↔◌, inl, inr, true, false, ◌&&◌,
  Option, none, some, List, [], ◌∷◌, ◌++◌, Text, length, length-append, arith, ◌==◌, Bool-cases,
}
use nano_rs.Config.Hostname.{starts_with}
use nano_rs.Config.Loader.{
  VarRef, var_ref, no_ref, parse_var_ref, value_of, Substituted, done, failed, out_of_fuel,
  push_front, behind, substitute_from, substitute_env_vars,
}
use nano_rs.Config.Loader.Parse.{
  IsVarName, IsDefaultValue, tail_of, parse_var_ref-close, parse_var_ref-var_ref,
}

-- A byte of the text, or a reference.
pub data Segment : Type 0 where
  byte : (c : ℕ) → Segment
  reference : (name : Text) → (default : Option Text) → Segment

unfoldable pub print : List Segment → Text
print [] = []
print (byte c ∷ ss) = c ∷ print ss
print (reference n d ∷ ss) = b'$' ∷ b'{' ∷ (n ++ tail_of d (print ss))

unfoldable pub eval : (Text → Option Text) → List Segment → Text
eval env [] = []
eval env (byte c ∷ ss) = c ∷ eval env ss
eval env (reference n d ∷ ss) = value_of env n d ++ eval env ss

-- Names of letters, digits and underscores, defaults without a closing brace, and no dollar and
-- opening brace that are bytes.
unfoldable pub IsReadable : List Segment → Type 0
unfolding print
IsReadable [] = Unit
IsReadable (byte c ∷ ss) = ((c == b'$' && starts_with b'{' (print ss)) ≡ false) × IsReadable ss
IsReadable (reference n d ∷ ss) = IsVarName n × IsDefaultValue d × IsReadable ss

length-tail_of :
    (n : Text) (d : Option Text) (rest : Text) → length rest < length (n ++ tail_of d rest)
length-tail_of n none rest = omega (arith, length-append n (b'}' ∷ rest))
length-tail_of n (some d) rest =
    omega
      (arith, length-append n (b':' ∷ b'-' ∷ (d ++ (b'}' ∷ rest))), length-append d (b'}' ∷ rest))

pub substitute-print :
    (env : Text → Option Text) (ss : List Segment) (fuel : ℕ)
    → IsReadable ss
    → length (print ss) < fuel
    → substitute_from env fuel (print ss) ≡ done (eval env ss)
unfolding substitute_from print eval IsReadable
substitute-print env ss zero v h = absurd (omega arith)
substitute-print env [] (suc fuel) v h = refl
substitute-print env (byte c ∷ ss) (suc fuel) v h =
    rw (substitute_from, v.0, substitute-print env ss fuel v.1 (omega arith)) refl
substitute-print env (reference n d ∷ ss) (suc fuel) v h =
    rw
      (
        substitute_from,
        parse_var_ref-close [] n d (print ss) v.0 v.1,
        substitute-print env ss fuel v.2 (omega (arith, length-tail_of n d (print ss))),
      )
      refl

pub record Reads (env : Text → Option Text) (text r : Text) : Type 0 where
  pub segments : List Segment
  pub readable : IsReadable segments
  pub printed : text ≡ print segments
  pub evaluated : r ≡ eval env segments

push_front-done :
    (t r : Text) (x : Substituted)
    → push_front t x ≡ done r
    → (u : Text) × (x ≡ done u) × (r ≡ t ++ u)
push_front-done t r (done u) e = (u, refl, ground (arith, e))
push_front-done t r (failed why) e = cc
push_front-done t r out_of_fuel e = cc

opening :
    (c : ℕ) (s : Text)
    → (c == b'$' && starts_with b'{' s) ≡ true
    → (c ≡ b'$') × (s ≡ b'{' ∷ behind s)
opening c [] e = ground (arith, e)
opening c (d ∷ s) e = ground (arith, e)

-- The rest behind a reference, read by the induction hypothesis `ih`.
after_dollar :
    (env : Text → Option Text) (fuel c : ℕ) (s r : Text)
    → (c ≡ b'$') × (s ≡ b'{' ∷ behind s)
    → ((text u : Text) → substitute_from env fuel text ≡ done u → Reads env text u)
    → (p : VarRef) → parse_var_ref [] (behind s) ≡ p
    → elim p [
      | var_ref name default rest ↦
          push_front (value_of env name default) (substitute_from env fuel rest)
      | no_ref why ↦ failed why
    ]
      ≡ done r
    → Reads env (c ∷ s) r
unfolding print eval IsReadable
after_dollar env fuel c s r at ih (no_ref why) parsed e = cc
after_dollar env fuel c s r at ih (var_ref name default rest) parsed e =
    let (u, sub, joined) = push_front-done (value_of env name default) r _ e in
    let later = ih rest u sub in
    let ref = parse_var_ref-var_ref [] (behind s) name default rest parsed in
    record {
      segments = reference name default ∷ later.segments;
      readable = (subst IsVarName (sym ref.whole) ref.clean, ref.default_clean, later.readable);
      printed =
          ground (
            arith,
            at,
            ref.split,
            ref.whole,
            ap (λ t. ref.read ++ tail_of default t) later.printed,
          );
      evaluated = joined ∙ ap (λ t. value_of env name default ++ t) later.evaluated;
    }

read_segments :
    (env : Text → Option Text) (fuel : ℕ) (text r : Text)
    → substitute_from env fuel text ≡ done r
    → Reads env text r
unfolding substitute_from print eval IsReadable
read_segments env zero text r e = cc
read_segments env (suc fuel) [] r e = record {
  segments = [];
  readable = tt;
  printed = refl;
  evaluated = ground (arith, e);
}
read_segments env (suc fuel) (c ∷ s) r e = elim (Bool-cases (c == b'$' && starts_with b'{' s)) [
  | inl opened ↦
      let e' = rw (substitute_from, opened) at e in
      after_dollar env fuel c s r (opening c s opened) (λ text u. read_segments env fuel text u)
        (parse_var_ref [] (behind s)) refl e'
  | inr plain ↦
      let (u, rest, joined) = push_front-done (c ∷ []) r _ (rw (substitute_from, plain) at e) in
      let later = read_segments env fuel s u rest in
      record {
        segments = byte c ∷ later.segments;
        readable =
            (ap (λ t. c == b'$' && starts_with b'{' t) (sym later.printed) ∙ plain, later.readable);
        printed = ap (λ t. c ∷ t) later.printed;
        evaluated = joined ∙ ap (λ t. c ∷ t) later.evaluated;
      }
]

-- A text is substituted exactly if it consists of bytes and closed references, `${name}` or
-- `${name:-default}`, and the result is that of the references replaced by the values of the
-- variables, by the defaults where these are not set, and by nothing where there is no default.
pub substitute_env_vars_iff :
    (env : Text → Option Text) (text r : Text)
    → (substitute_env_vars env text ≡ done r) ↔ Reads env text r
unfolding substitute_env_vars
substitute_env_vars_iff env text r = (
  read_segments env (suc (length text)) text r,
  λ v.
      ap (substitute_from env (suc (length text))) v.printed
      ∙ substitute-print env v.segments (suc (length text)) v.readable
          (omega (arith, ap length v.printed))
      ∙ ap done (sym v.evaluated),
)

push_front-out : (t : Text) (x : Substituted) → push_front t x ≡ out_of_fuel → x ≡ out_of_fuel
push_front-out t (done u) e = cc
push_front-out t (failed why) e = cc
push_front-out t out_of_fuel e = refl

rest_shorter :
    (s name rest : Text) (default : Option Text)
    → parse_var_ref [] s ≡ var_ref name default rest
    → length rest < length s
rest_shorter s name rest default parsed =
    let ref = parse_var_ref-var_ref [] s name default rest parsed in
    omega (arith, length-tail_of ref.read default rest, ap length ref.split)

length-behind-le : (s : Text) → length (behind s) ≤ length s
length-behind-le [] = omega arith
length-behind-le (c ∷ s) = omega arith

after_dollar_ends :
    (env : Text → Option Text) (fuel : ℕ) (s : Text)
    → length s < fuel
    → ((text : Text) → length text < fuel → substitute_from env fuel text ≢ out_of_fuel)
    → (p : VarRef) → parse_var_ref [] (behind s) ≡ p
    → elim p [
      | var_ref name default rest ↦
          push_front (value_of env name default) (substitute_from env fuel rest)
      | no_ref why ↦ failed why
    ]
      ≢ out_of_fuel
after_dollar_ends env fuel s h ih (no_ref why) parsed = λ e. cc
after_dollar_ends env fuel s h ih (var_ref name default rest) parsed = λ e.
    ih rest (omega (arith, rest_shorter (behind s) name rest default parsed, length-behind-le s))
      (push_front-out (value_of env name default) _ e)

some_fuel :
    (env : Text → Option Text) (fuel : ℕ) (text : Text)
    → length text < fuel
    → substitute_from env fuel text ≢ out_of_fuel
unfolding substitute_from
some_fuel env zero text h = absurd (omega arith)
some_fuel env (suc fuel) [] h = λ e. cc
some_fuel env (suc fuel) (c ∷ s) h = elim (Bool-cases (c == b'$' && starts_with b'{' s)) [
  | inl opened ↦
      rw (substitute_from, opened)
        (after_dollar_ends env fuel s (omega arith) (λ text k. some_fuel env fuel text k)
          (parse_var_ref [] (behind s)) refl)
  | inr plain ↦
      rw (substitute_from, plain)
        (λ e. some_fuel env fuel s (omega arith) (push_front-out (c ∷ []) _ e))
]

-- The loop ends: the fuel that the model gives it, a round for each byte and one more, is enough.
pub substitute_env_vars-ends :
    (env : Text → Option Text) (text : Text) → substitute_env_vars env text ≢ out_of_fuel
unfolding substitute_env_vars
substitute_env_vars-ends env text = some_fuel env (suc (length text)) text (omega arith)
