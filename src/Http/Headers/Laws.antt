-- ===== src/Http/Headers/Laws.antt =====
-- The calls of `NanoHeaders`, one by one and in series.
use nano_rs.Common.{
  ◌≡◌, ◌≢◌, inl, inr, none, some, List, [], ◌∷◌, ◌++◌, Text, str_eq, str_eq_iff, get, put,
  to_lowercase, to_lowercase_twice, get-put, get-del_ne, get-del_self, Distinct, put-Distinct,
  del-Distinct, Entries, put-Entries, del-Entries, if◌then◌else◌, Option-cases, arith,
}
use nano_rs.Http.Headers.{NanoHeaders, new, push_value, set, append, delete}

-- The values under a name.
unfoldable pub values_of : Text → NanoHeaders → List Text
values_of name h = elim (get (to_lowercase name) h.headers) [ none ↦ [] | some vs ↦ vs ]

-- The keys are in lower case, each once, and each has a value.
pub record IsSound (name : Text) (values : List Text) : Type 0 where
  pub lower : to_lowercase name ≡ name
  pub filled : values ≢ []

pub record IsWellFormed (h : NanoHeaders) : Type 0 where
  pub distinct : Distinct h.headers
  pub sound : Entries IsSound h.headers

-- Calls on headers.
pub data Op : Type 0 where
  sets appends : Text → Text → Op
  deletes : Text → Op

unfoldable pub step : NanoHeaders → Op → NanoHeaders
step h (sets name value) = set name value h
step h (appends name value) = append name value h
step h (deletes name) = delete name h

unfoldable pub run : NanoHeaders → List Op → NanoHeaders
run h [] = h
run h (op ∷ ops) = run (step h op) ops

append-ne-nil : (vs : List Text) (v : Text) → vs ++ (v ∷ []) ≢ []
append-ne-nil [] v = λ e. cc
append-ne-nil (w ∷ vs) v = λ e. cc

put-IsWellFormed :
    (h : NanoHeaders) (name : Text) (values : List Text)
    → IsWellFormed h
    → values ≢ []
    → IsWellFormed (record { headers = put (to_lowercase name) values h.headers })
put-IsWellFormed h name values w f = record {
  distinct = put-Distinct (to_lowercase name) values h.headers w.distinct;
  sound =
      put-Entries IsSound (to_lowercase name) values h.headers w.sound
        (record { lower = to_lowercase_twice name; filled = f });
}

append-IsWellFormed :
    (h : NanoHeaders) (name value : Text) → IsWellFormed h → IsWellFormed (append name value h)
unfolding append push_value
append-IsWellFormed h name value w = elim (Option-cases (get (to_lowercase name) h.headers)) [
  | inl missing ↦
      rw (append, push_value, missing) (put-IsWellFormed h name (value ∷ []) w (λ e. cc))
  | inr (vs, found) ↦
      rw (append, push_value, found)
        (put-IsWellFormed h name (vs ++ (value ∷ [])) w (append-ne-nil vs value))
]

pub step-IsWellFormed : (h : NanoHeaders) (op : Op) → IsWellFormed h → IsWellFormed (step h op)
unfolding step set delete
step-IsWellFormed h (sets name value) w = put-IsWellFormed h name (value ∷ []) w (λ e. cc)
step-IsWellFormed h (appends name value) w = append-IsWellFormed h name value w
step-IsWellFormed h (deletes name) w = record {
  distinct = del-Distinct (to_lowercase name) h.headers w.distinct;
  sound = del-Entries IsSound (to_lowercase name) h.headers w.sound;
}

run-IsWellFormed : (h : NanoHeaders) (ops : List Op) → IsWellFormed h → IsWellFormed (run h ops)
unfolding run
run-IsWellFormed h [] w = w
run-IsWellFormed h (op ∷ ops) w = run-IsWellFormed (step h op) ops (step-IsWellFormed h op w)

-- After any series of calls on new headers, every name that is there is in lower case, stands there
-- once, and has a value.
pub run-new : (ops : List Op) → IsWellFormed (run new ops)
unfolding new
run-new ops = run-IsWellFormed new ops (record { distinct = tt; sound = tt })

-- What one call does to the values under any name, in any case: `set` replaces them, `append`
-- adds one at the end, `delete` takes them out; other names keep theirs.
abbrev pub values_after : Op → List Text → List Text
values_after (sets _ value) vs = value ∷ []
values_after (appends _ value) vs = vs ++ (value ∷ [])
values_after (deletes _) vs = []

abbrev pub name_of : Op → Text
name_of (sets name _) = name
name_of (appends name _) = name
name_of (deletes name) = name

pub values_of-step :
    (h : NanoHeaders) (op : Op) (name : Text)
    → IsWellFormed h
    → values_of name (step h op) ≡ (
        if str_eq (to_lowercase (name_of op)) (to_lowercase name)
        then values_after op (values_of name h)
        else values_of name h)
unfolding step set append delete push_value values_of
values_of-step h (sets k value) name w = ground (
  arith,
  str_eq_iff (to_lowercase k) (to_lowercase name),
  get-put (to_lowercase k) (to_lowercase name) (value ∷ []) h.headers,
)
values_of-step h (appends k value) name w =
    let same = str_eq_iff (to_lowercase k) (to_lowercase name) in
    elim (Option-cases (get (to_lowercase k) h.headers)) [
      | inl missing ↦ ground (
        arith,
        same,
        missing,
        get-put (to_lowercase k) (to_lowercase name) (value ∷ []) h.headers,
      )
      | inr (vs, found) ↦ ground (
        arith,
        same,
        found,
        get-put (to_lowercase k) (to_lowercase name) (vs ++ (value ∷ [])) h.headers,
      )
    ]
values_of-step h (deletes k) name w = ground (
  arith,
  str_eq_iff (to_lowercase k) (to_lowercase name),
  get-del_self (to_lowercase k) h.headers w.distinct,
  get-del_ne (to_lowercase k) (to_lowercase name) h.headers,
)
