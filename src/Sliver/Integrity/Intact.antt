-- ===== src/Sliver/Integrity/Intact.antt =====
-- Which files `validate_sliver_integrity` accepts.
use mathlib.Core.List.{append-nil, append_assoc}
use nano_rs.Common.{
  ◌≡◌, ◌↔◌, refl, sym, ap, ◌∙◌, subst, Bool, true, false, ◌||◌, Option, none, some, List, [], ◌∷◌,
  ◌++◌, Text, bytes, str_eq_iff, if◌then◌else◌, arith,
}
use nano_rs.Config.Checks.Clean.{both}
use nano_rs.Sliver.Integrity.{
  Entry, CorruptionType, missing_metadata, missing_heap, SliverFile, accepted, not_found,
  cannot_open, cannot_read, invalid_extension, Scan, metadata_filename, heap_filename, is_named,
  scan, start, all_errors, first_error, is_sliver, validate_sliver_integrity,
}
use nano_rs.Sliver.Integrity.Sound.{AreSound, entries_errors, entries_errors_iff, same_name}

unfoldable pub has_named : Text → List (Option Entry) → Bool
unfolding is_named
has_named name [] = false
has_named name (item ∷ items) = is_named name item || has_named name items

or_assoc : (a b c : Bool) → ((a || b) || c) ≡ (a || (b || c))
or_assoc a b c = ground arith

first_error_iff : (es : List CorruptionType) → (first_error es ≡ accepted) ↔ (es ≡ [])
first_error_iff [] = (λ v. refl, λ v. refl)
first_error_iff (e ∷ es) = (λ v. cc v, λ v. cc v)

required_iff :
    (found : Bool) (e : CorruptionType) → ((if found then [] else e ∷ []) ≡ []) ↔ (found ≡ true)
required_iff true e = (λ v. refl, λ v. refl)
required_iff false e = (λ v. cc v, λ v. cc v)

is_sliver_iff : (o : Option Text) → (is_sliver o ≡ true) ↔ (o ≡ some (bytes "sliver"))
is_sliver_iff none = (λ v. cc v, λ v. cc v)
is_sliver_iff (some s) = (
  λ v. ap some ((str_eq_iff s (bytes "sliver")).0 v),
  λ v. same_name (some s) s (bytes "sliver") refl v,
)

module _ (parses : Text → Bool) where
  scan-found_metadata :
      (items : List (Option Entry)) (s : Scan)
      → (scan parses items s).found_metadata
        ≡ (s.found_metadata || has_named metadata_filename items)
  unfolding scan has_named
  scan-found_metadata [] s = ground arith
  scan-found_metadata (item ∷ items) s = scan-found_metadata items _ ∙ or_assoc s.found_metadata _ _

  scan-found_heap :
      (items : List (Option Entry)) (s : Scan)
      → (scan parses items s).found_heap ≡ (s.found_heap || has_named heap_filename items)
  unfolding scan has_named
  scan-found_heap [] s = ground arith
  scan-found_heap (item ∷ items) s = scan-found_heap items _ ∙ or_assoc s.found_heap _ _

  scan-errors :
      (items : List (Option Entry)) (s : Scan)
      → (scan parses items s).errors ≡ s.errors ++ entries_errors parses items
  unfolding scan entries_errors
  scan-errors [] s = sym (append-nil s.errors)
  scan-errors (item ∷ items) s = scan-errors items _ ∙ append_assoc s.errors _ _

  -- What a file is that the validation accepts: it is there and named as a sliver, its archive can
  -- be read with all entries, these are sound, and metadata and heap are among them.
  pub record IsIntact (file : SliverFile) : Type 0 where
    pub there : file.exists ≡ true
    pub extension : file.extension ≡ some (bytes "sliver")
    pub entries : List (Option Entry)
    pub archive : file.archive ≡ some (some entries)
    pub sound : AreSound parses entries
    pub metadata : has_named metadata_filename entries ≡ true
    pub heap : has_named heap_filename entries ≡ true

  all_errors-scan :
      (entries : List (Option Entry))
      → (first_error (all_errors (scan parses entries start)) ≡ accepted) ↔ (
          AreSound parses entries
          × ((has_named metadata_filename entries ≡ true)
              × (has_named heap_filename entries ≡ true)))
  unfolding all_errors
  all_errors-scan entries =
      let required =
        both
          (both (entries_errors_iff parses entries)
            (required_iff (has_named metadata_filename entries) missing_metadata))
          (required_iff (has_named heap_filename entries) missing_heap) in
      let scanned = scan parses entries start in
      let shape : all_errors scanned
          ≡ (entries_errors parses entries
              ++ (if has_named metadata_filename entries then [] else missing_metadata ∷ []))
            ++ (if has_named heap_filename entries then [] else missing_heap ∷ []) =
        rw
          (
            all_errors,
            scan-errors entries start,
            scan-found_metadata entries start,
            scan-found_heap entries start,
          )
          refl in
      (
        λ v.
            let ((s, m), h) = required.0 (sym shape ∙ (first_error_iff (all_errors scanned)).0 v) in
            (s, (m, h)),
        λ v. (first_error_iff (all_errors scanned)).1 (shape ∙ required.1 ((v.0, v.1.0), v.1.1)),
      )

  judged_iff :
      (exists sliver : Bool) (found : Option Text) (archive : Option (Option (List (Option Entry))))
      → ((if exists
            then (if sliver
                then elim archive [
                  | none ↦ cannot_open
                  | some none ↦ cannot_read
                  | some (some entries) ↦ first_error (all_errors (scan parses entries start))
                ]
                else invalid_extension found)
            else not_found)
          ≡ accepted)
        ↔ ((exists ≡ true)
            × ((sliver ≡ true)
                × ((entries : List (Option Entry)) × (archive ≡ some (some entries))
                    × (first_error (all_errors (scan parses entries start)) ≡ accepted))))
  judged_iff false sliver found archive = (λ v. cc v, λ v. cc v.0)
  judged_iff true false found archive = (λ v. cc v, λ v. cc v.1.0)
  judged_iff true true found none = (λ v. cc v, λ v. cc v.1.1.1)
  judged_iff true true found (some none) = (λ v. cc v, λ v. cc v.1.1.1)
  judged_iff true true found (some (some entries)) = (
    λ v. (refl, (refl, (entries, refl, v))),
    λ v.
        let same : entries ≡ v.1.1.0 = cc v.1.1.1 in
        subst (λ es. first_error (all_errors (scan parses es start)) ≡ accepted) (sym same) v.1.1.2,
  )

  -- The validation accepts a file exactly if it is intact.
  pub validate_sliver_integrity_iff :
      (file : SliverFile) → (validate_sliver_integrity parses file ≡ accepted) ↔ IsIntact file
  unfolding validate_sliver_integrity
  validate_sliver_integrity_iff file =
      let judged = judged_iff file.exists (is_sliver file.extension) file.extension file.archive in
      (
        λ v.
            let parts = judged.0 v in
            let required = (all_errors-scan parts.1.1.0).0 parts.1.1.2 in
            record {
              there = parts.0;
              extension = (is_sliver_iff file.extension).0 parts.1.0;
              entries = parts.1.1.0;
              archive = parts.1.1.1;
              sound = required.0;
              metadata = required.1.0;
              heap = required.1.1;
            },
        λ v. judged.1 (
          v.there,
          (
            (is_sliver_iff file.extension).1 v.extension,
            (v.entries, v.archive, (all_errors-scan v.entries).1 (v.sound, (v.metadata, v.heap))),
          ),
        ),
      )
