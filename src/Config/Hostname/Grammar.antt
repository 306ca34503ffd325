-- ===== src/Config/Hostname/Grammar.antt =====
-- Hostnames as a grammar: labels joined by dots.
use nano_rs.Common.{
  ℕ, ◌≤◌, ◌≡◌, refl, sym, ap, subst, ◌∙◌, ◌≢◌, ◌↔◌, inl, inr, true, false, List, [], ◌∷◌, ◌++◌,
  Text, length, All, ◌==◌, arith, Bool-cases,
}
use nano_rs.Config.Hostname.{
  starts_with, ends_with, split_labels, is_label_byte, all_label_bytes, is_valid_label, all_labels,
  is_valid_hostname,
}

-- `join(".")`.
abbrev pub join_labels : List Text → Text
join_labels [] = []
join_labels (l ∷ []) = l
join_labels (l ∷ m ∷ ls) = l ++ (b'.' ∷ join_labels (m ∷ ls))

-- At most 63 letters, digits and dashes, of which the first and the last are no dash.
pub record IsLabel (l : Text) : Type 0 where
  pub filled : l ≢ []
  pub short : length l ≤ 63
  pub starts : starts_with b'-' l ≡ false
  pub ends : ends_with b'-' l ≡ false
  pub clean : All (λ c. is_label_byte c ≡ true) l

-- At most 253 bytes, labels joined by dots.
pub record IsHostname (h : Text) : Type 0 where
  pub short : length h ≤ 253
  pub labels : List Text
  pub some_label : labels ≢ []
  pub each : All IsLabel labels
  pub joined : h ≡ join_labels labels

all_label_bytes_iff : (l : Text) → (all_label_bytes l ≡ true) ↔ All (λ c. is_label_byte c ≡ true) l
unfolding all_label_bytes
all_label_bytes_iff [] = (λ _. tt, λ _. refl)
all_label_bytes_iff (c ∷ s) = ground (arith, all_label_bytes_iff s)

is_valid_label_iff : (l : Text) → (is_valid_label l ≡ true) ↔ IsLabel l
unfolding is_valid_label
is_valid_label_iff [] = (λ e. cc, λ v. absurd (v.filled refl))
is_valid_label_iff (c ∷ s) = (
  λ e. ground (arith, all_label_bytes_iff (c ∷ s)),
  λ v. ground (arith, all_label_bytes_iff (c ∷ s), v),
)

all_labels_iff : (ls : List Text) → (all_labels ls ≡ true) ↔ All IsLabel ls
unfolding all_labels
all_labels_iff [] = (λ _. tt, λ _. refl)
all_labels_iff (l ∷ ls) = ground (arith, is_valid_label_iff l, all_labels_iff ls)

join-cons :
    (c : ℕ) (l : Text) (ls : List Text) → join_labels ((c ∷ l) ∷ ls) ≡ c ∷ join_labels (l ∷ ls)
join-cons c l [] = refl
join-cons c l (m ∷ ls) = refl

-- The labels of a text, joined, are the text.
join-split : (s : Text) → join_labels ((split_labels s).0 ∷ (split_labels s).1) ≡ s
unfolding split_labels
join-split [] = refl
join-split (c ∷ s) = elim (Bool-cases (c == b'.')) [
  | inl dot ↦ ground (arith, dot, join-split s)
  | inr other ↦
      rw other (join-cons c (split_labels s).0 (split_labels s).1 ∙ ap (λ t. c ∷ t) (join-split s))
]

-- A label without a dot, in front of a dot, is the first that splitting gives.
split-dot :
    (l s : Text)
    → All (λ c. is_label_byte c ≡ true) l
    → split_labels (l ++ (b'.' ∷ s)) ≡ (l, (split_labels s).0 ∷ (split_labels s).1)
unfolding split_labels
split-dot [] s h = refl
split-dot (c ∷ l) s h = ground (arith, split-dot l s h.1)

split_self : (l : Text) → All (λ c. is_label_byte c ≡ true) l → split_labels l ≡ (l, [])
unfolding split_labels
split_self [] h = refl
split_self (c ∷ l) h = ground (arith, split_self l h.1)

split-join :
    (l : Text) (ls : List Text)
    → All IsLabel (l ∷ ls)
    → split_labels (join_labels (l ∷ ls)) ≡ (l, ls)
split-join l [] h = split_self l h.0.clean
split-join l (m ∷ ls) h =
    split-dot l (join_labels (m ∷ ls)) h.0.clean ∙ ap (λ r. (l, r.0 ∷ r.1)) (split-join m ls h.1)

pub join-ne-nil : (l : Text) (ls : List Text) → l ≢ [] → join_labels (l ∷ ls) ≢ []
join-ne-nil [] ls h = absurd (h refl)
join-ne-nil (c ∷ l) [] h = λ e. cc
join-ne-nil (c ∷ l) (m ∷ ls) h = λ e. cc

parts :
    (h : Text)
    → is_valid_hostname h ≡ true
    → (length h ≤ 253) × (all_labels ((split_labels h).0 ∷ (split_labels h).1) ≡ true)
unfolding is_valid_hostname
parts [] e = cc
parts (c ∷ h) e = ground arith

accept :
    (h : Text)
    → h ≢ []
    → length h ≤ 253
    → all_labels ((split_labels h).0 ∷ (split_labels h).1) ≡ true
    → is_valid_hostname h ≡ true
unfolding is_valid_hostname
accept [] ne short e = absurd (ne refl)
accept (c ∷ h) ne short e = ground arith

-- `is_valid_hostname` accepts exactly the texts of at most 253 bytes that are labels joined by
-- dots: each of 1 to 63 letters, digits and dashes, and no dash at its start or end.
pub is_valid_hostname_iff : (h : Text) → (is_valid_hostname h ≡ true) ↔ IsHostname h
is_valid_hostname_iff h = (
  λ e.
      let (short, each) = parts h e in
      record {
        short = short;
        labels = (split_labels h).0 ∷ (split_labels h).1;
        some_label = λ n. cc;
        each = (all_labels_iff _).0 each;
        joined = sym (join-split h);
      },
  λ v. from_labels v.labels v.some_label v.each v.joined v.short,
)
  where
    from_labels :
        (ls : List Text)
        → ls ≢ []
        → All IsLabel ls
        → h ≡ join_labels ls
        → length h ≤ 253
        → is_valid_hostname h ≡ true
    from_labels [] some_label each joined short = absurd (some_label refl)
    from_labels (l ∷ ls) some_label each joined short =
        accept h (λ e. join-ne-nil l ls each.0.filled (sym joined ∙ e)) short
          (subst (λ r. all_labels (r.0 ∷ r.1) ≡ true)
            (sym (ap split_labels joined ∙ split-join l ls each))
            ((all_labels_iff (l ∷ ls)).1 each))
