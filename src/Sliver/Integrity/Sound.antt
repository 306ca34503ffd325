-- ===== src/Sliver/Integrity/Sound.antt =====
-- Which entries of an archive `validate_sliver_integrity` finds no error in.
use nano_rs.Common.{
  ◌≡◌, ◌≢◌, ◌↔◌, refl, sym, ap, ◌∙◌, Bool, true, Option, none, some, List, [], ◌∷◌, ◌++◌, Text,
  str_eq, str_eq_iff, ◌==◌, if◌then◌else◌, arith, Bool-cases, Option-cases, inl, inr,
}
use nano_rs.Config.Checks.Clean.{both}
use nano_rs.Sliver.Integrity.{
  Entry, CorruptionType, empty_file, metadata_filename, heap_filename, metadata_errors,
  entry_errors,
}

pub same_name : (o : Option Text) (p q : Text) → o ≡ some p → o ≡ some q → str_eq p q ≡ true
same_name o p q e e' = let same : p ≡ q = cc (e, e') in (str_eq_iff p q).1 same

names_apart : some metadata_filename ≢ some heap_filename
names_apart e = cc e

module _ (parses : Text → Bool) where
  -- An entry that can be read: metadata that parse, and a heap that is not empty.
  pub record IsSound (e : Entry) : Type 0 where
    pub named : (path : Text) × (e.path ≡ some path)
    pub metadata :
        e.path ≡ some metadata_filename
        → (e.size ≢ 0) × ((text : Text) × (e.text ≡ some text) × (parses text ≡ true))
    pub heap : e.path ≡ some heap_filename → e.size ≢ 0

  abbrev pub AreSound : List (Option Entry) → Type 0
  AreSound [] = Unit
  AreSound (none ∷ items) = ⊥
  AreSound (some e ∷ items) = IsSound e × AreSound items

  metadata_errors_iff :
      (e : Entry)
      → (metadata_errors parses e ≡ [])
        ↔ ((e.size ≢ 0) × ((text : Text) × (e.text ≡ some text) × (parses text ≡ true)))
  unfolding metadata_errors
  metadata_errors_iff e = elim (Bool-cases (e.size == 0)) [
    | inl empty ↦ rw (metadata_errors, empty) (λ x. cc x, λ v. absurd (v.0 (ground (arith, empty))))
    | inr filled ↦ elim (Option-cases e.text) [
      | inl unread ↦ rw (metadata_errors, filled, unread) (λ x. cc x, λ v. cc v.1.1)
      | inr (text, read) ↦ elim (Bool-cases (parses text)) [
        | inl parsed ↦
            rw (metadata_errors, filled, read, parsed)
              (λ x. (λ z. ground (arith, filled, z), (text, refl, parsed)), λ v. refl)
        | inr bad ↦ rw (metadata_errors, filled, read, bad) (λ x. cc x, λ v. ground (arith, v, bad))
      ]
    ]
  ]

  entry_errors_iff : (e : Entry) → (entry_errors parses (some e) ≡ []) ↔ IsSound e
  unfolding entry_errors
  entry_errors_iff e = elim (Option-cases e.path) [
    | inl missing ↦ (λ x. cc (rw (entry_errors, missing) at x), λ v. cc (sym missing ∙ v.named.1))
    | inr (path, found) ↦ elim (Bool-cases (str_eq path metadata_filename)) [
      | inl is_metadata ↦
          let is_at : e.path ≡ some metadata_filename =
            found ∙ ap some ((str_eq_iff path metadata_filename).0 is_metadata) in
          let shape : entry_errors parses (some e) ≡ metadata_errors parses e =
            rw (entry_errors, found, is_metadata) refl in
          (
            λ x. record {
              named = (path, found);
              metadata = λ h. (metadata_errors_iff e).0 (sym shape ∙ x);
              heap = λ h. absurd (names_apart (sym is_at ∙ h));
            },
            λ v. shape ∙ (metadata_errors_iff e).1 (v.metadata is_at),
          )
      | inr other ↦ elim (Bool-cases (str_eq path heap_filename)) [
        | inl is_heap ↦
            let is_at : e.path ≡ some heap_filename =
              found ∙ ap some ((str_eq_iff path heap_filename).0 is_heap) in
            let shape : entry_errors parses (some e)
                ≡ (if e.size == 0 then empty_file heap_filename ∷ [] else []) =
              rw (entry_errors, found, other, is_heap) refl in
            (
              λ x. record {
                named = (path, found);
                metadata = λ h. absurd (names_apart (sym h ∙ is_at));
                heap = λ h z. ground (arith, sym shape ∙ x, z);
              },
              λ v. shape ∙ ground (arith, v.heap is_at),
            )
        | inr neither ↦
            let shape : entry_errors parses (some e) ≡ [] =
              rw (entry_errors, found, other, neither) refl in
            (
              λ x. record {
                named = (path, found);
                metadata = λ h. cc (sym other ∙ same_name e.path path metadata_filename found h);
                heap = λ h. cc (sym neither ∙ same_name e.path path heap_filename found h);
              },
              λ v. shape,
            )
      ]
    ]
  ]

  unfoldable pub entries_errors : List (Option Entry) → List CorruptionType
  unfolding entry_errors
  entries_errors [] = []
  entries_errors (item ∷ items) = entry_errors parses item ++ entries_errors items

  -- The entries have no errors exactly if all are sound.
  pub entries_errors_iff :
      (items : List (Option Entry)) → (entries_errors items ≡ []) ↔ AreSound items
  unfolding entries_errors
  entries_errors_iff [] = (λ e. tt, λ s. refl)
  entries_errors_iff (none ∷ items) = (λ x. cc x, λ v. absurd v)
  entries_errors_iff (some e ∷ items) = both (entry_errors_iff e) (entries_errors_iff items)
