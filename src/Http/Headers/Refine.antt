-- ===== src/Http/Headers/Refine.antt =====
-- What scripts read of `NanoHeaders` after a series of calls.
use nano_rs.Common.{
  ◌≡◌, refl, ap, ◌∙◌, ◌≢◌, inl, inr, true, false, none, some, List, [], ◌∷◌, Text, is_empty, str_eq,
  get, to_lowercase, get-Entries, if◌then◌else◌, Option-cases, arith,
}
use nano_rs.Http.Headers.{NanoHeaders, new, set_cookie, shown, lookup, get_set_cookie, has}
use nano_rs.Http.Headers.Laws.{
  Op, step, run, name_of, values_after, values_of, values_of-step, IsSound, IsWellFormed,
  step-IsWellFormed, run-new,
}

-- The values that a series of calls leaves under a name, when it starts with `vs`.
abbrev pub given : Text → List Text → List Op → List Text
given name vs [] = vs
given name vs (op ∷ ops) =
    given name
      (if str_eq (to_lowercase (name_of op)) (to_lowercase name) then values_after op vs else vs)
      ops

values_of-run :
    (h : NanoHeaders) (name : Text) (ops : List Op)
    → IsWellFormed h
    → values_of name (run h ops) ≡ given name (values_of name h) ops
unfolding run
values_of-run h name [] w = refl
values_of-run h name (op ∷ ops) w =
    values_of-run (step h op) name ops (step-IsWellFormed h op w)
    ∙ ap (λ vs. given name vs ops) (values_of-step h op name w)

-- What the three readers see of a list of values.
pub record Reads (name : Text) (vs : List Text) (h : NanoHeaders) : Type 0 where
  pub looked_up :
      lookup name h ≡ (if is_empty vs then none else some (shown (to_lowercase name) vs))
  pub there : has name h ≡ (if is_empty vs then false else true)
  pub cookies : to_lowercase name ≡ set_cookie → get_set_cookie h ≡ vs

is_empty_of_ne : (vs : List Text) → vs ≢ [] → is_empty vs ≡ false
is_empty_of_ne [] n = absurd (n refl)
is_empty_of_ne (v ∷ vs) n = refl

Reads-values_of : (h : NanoHeaders) (name : Text) → IsWellFormed h → Reads name (values_of name h) h
unfolding values_of lookup has get_set_cookie
Reads-values_of h name w = elim (Option-cases (get (to_lowercase name) h.headers)) [
  | inl missing ↦ record {
    looked_up = ground (arith, missing);
    there = ground (arith, missing);
    cookies = λ e. ground (arith, missing, e);
  }
  | inr (vs, found) ↦
      let sound = get-Entries IsSound (to_lowercase name) h.headers vs w.sound found in
      let filled = is_empty_of_ne vs sound.filled in
      record {
        looked_up = ground (arith, found, filled);
        there = ground (arith, found, filled);
        cookies = λ e. ground (arith, found, e);
      }
]

-- After any series of calls on new headers, a name in any case reads as the values given under it,
-- in any case, since the last `set` or `delete`: joined with commas, except that of cookies `get`
-- shows the first, and `get_set_cookie` gives all in order.
pub run-Reads : (name : Text) (ops : List Op) → Reads name (given name [] ops) (run new ops)
unfolding new values_of get run
run-Reads name ops =
    let w = run-new ops in
    rw (← values_of-run new name ops (run-new [])) (Reads-values_of (run new ops) name w)
