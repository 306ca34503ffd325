-- ===== src/Eviction/Victims/Best.antt =====
-- Which isolates `select_victims` takes, and in which order.
use mathlib.Core.List.{Perm}
use nano_rs.Common.{
  ℕ, ◌*◌, ◌≤◌, ◌≡◌, refl, ◌≢◌, Bool, true, false, some, List, [], ◌∷◌, ◌++◌, Text, length, get,
  keep, take, length-take-le, All, All-take, arith,
}
use nano_rs.Eviction.Defs.{
  EvictionPolicy, lru, lfu, random, largest_first, IsolateMetadata, idle_duration,
  IsolateEvictionState, active, EvictionManager,
}
use nano_rs.Eviction.Sort.{
  drop, take-append-drop, length-take, sort_by, sort_by-perm, sort_by-All, sort_by-IsSorted,
  IsSorted-split,
}
use nano_rs.Eviction.Victims.{Entry, le_by, is_candidate, candidates, ids_of, select_victims}

-- What makes an isolate a candidate for eviction.
pub record IsEligible (now : ℕ) (stateless_only : Bool) (m : EvictionManager) (e : Entry)
    : Type 0 where
  pub live : (s : IsolateEvictionState) → get e.0 m.eviction_states ≡ some s → s ≡ active
  pub idle : e.1.active_requests ≡ 0
  pub rested : m.config.min_idle_secs * 1000000000 ≤ idle_duration now e.1
  pub stateless : stateless_only ≡ true → m.config.prefer_stateless ≡ true → e.1.is_stateless ≡ true

is_candidate-IsEligible :
    (now : ℕ) (stateless_only : Bool) (m : EvictionManager) (id : Text) (meta : IsolateMetadata)
    → is_candidate now stateless_only m (id, meta) ≡ true
    → IsEligible now stateless_only m (id, meta)
unfolding is_candidate
is_candidate-IsEligible now only m id meta h = record {
  live = λ s found. ground (arith, h, found);
  idle = ground (arith, h);
  rested = ground (arith, h);
  stateless = λ o p. ground (arith, h, o, p);
}

keep-All {ℓ} : {A : Type ℓ} (p : A → Bool) (xs : List A) → All (λ x. p x ≡ true) (keep p xs)
keep-All p [] = tt
keep-All p (x ∷ xs) = ground (arith, keep-All p xs)

module _ (hash : Text → ℕ) (seed : ℕ) where
  le_by-total :
      (p : EvictionPolicy) (a b : Entry)
      → le_by hash seed p a b ≡ false
      → le_by hash seed p b a ≡ true
  unfolding le_by
  le_by-total lru a b h = ground arith
  le_by-total lfu a b h = ground arith
  le_by-total largest_first a b h = ground arith
  le_by-total random a b h = ground arith

  le_by_trans :
      (p : EvictionPolicy) (a b c : Entry)
      → le_by hash seed p a b ≡ true
      → le_by hash seed p b c ≡ true
      → le_by hash seed p a c ≡ true
  unfolding le_by
  le_by_trans lru a b c h k = ground arith
  le_by_trans lfu a b c h k = ground arith
  le_by_trans largest_first a b c h k = ground arith
  le_by_trans random a b c h k = ground arith

All-map {ℓ κ} :
    {A : Type ℓ} {P Q : A → Type κ} (f : (a : A) → P a → Q a) (xs : List A) → All P xs → All Q xs
All-map f [] h = tt
All-map f (x ∷ xs) h = (f x h.0, All-map f xs h.1)

-- The chosen entries and the candidates left over.
pub record IsBest (hash : Text → ℕ) (seed now : ℕ) (m : EvictionManager) (count : ℕ) (only : Bool)
    (chosen rest : List Entry) : Type 0 where
  pub all : Perm (chosen ++ rest) (candidates now only m)
  pub best : All (λ v. All (λ w. le_by hash seed m.config.policy v w ≡ true) rest) chosen
  pub few : length chosen ≤ count
  pub enough : rest ≢ [] → length chosen ≡ count
  pub eligible : All (IsEligible now only m) chosen

-- The victims are eligible isolates, as many as asked for or else all the candidates, and by the
-- order of the policy none of the candidates left over comes before any of them.
pub select_victims-IsBest :
    (hash : Text → ℕ) (seed now : ℕ) (m : EvictionManager) (count : ℕ) (only : Bool)
    → (chosen : List Entry) × (rest : List Entry) × (select_victims hash seed now m count only
        ≡ ids_of chosen)
      × IsBest hash seed now m count only chosen rest
unfolding select_victims
select_victims-IsBest hash seed now m count only =
    let le = le_by hash seed m.config.policy in
    let sorted = sort_by le (candidates now only m) in
    let eligible = sort_by-All le (IsEligible now only m) (candidates now only m) (
      All-map (λ e h. is_candidate-IsEligible now only m e.0 e.1 h) _
        (keep-All (is_candidate now only m) m.isolates)) in
    (
      take count sorted,
      drop count sorted,
      refl,
      record {
        all = rw (take-append-drop count sorted) (sort_by-perm le (candidates now only m));
        best = IsSorted-split le count sorted (
            sort_by-IsSorted le (le_by-total hash seed m.config.policy)
              (le_by_trans hash seed m.config.policy) (candidates now only m));
        few = length-take-le count sorted;
        enough = length-take count sorted;
        eligible = All-take (IsEligible now only m) count sorted eligible;
      },
    )
