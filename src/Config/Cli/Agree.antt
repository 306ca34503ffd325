-- ===== src/Config/Cli/Agree.antt =====
-- The names of slivers that the command line of src/cli/validation.rs accepts.
use nano_rs.Common.{
  ℕ, ◌≤◌, ◌≡◌, refl, ◌↔◌, Bool, true, not, ◌||◌, ◌&&◌, [], ◌∷◌, Text, length, keep, is_empty, All,
  arith, ◌==◌,
}
use nano_rs.Config.Hostname.{is_ascii_alphanumeric}
use nano_rs.Config.Cli.{accepted, max_sliver_name_len, first_is_alphanumeric, validate_sliver_name}

-- Letters, digits, dashes and underscores.
abbrev pub is_sliver_byte : ℕ → Bool
is_sliver_byte c = is_ascii_alphanumeric c || (c == b'-' || c == b'_')

clean_iff :
    (s : Text)
    → (is_empty
          (keep (λ c. not (is_ascii_alphanumeric c) && (not (c == b'-') && not (c == b'_'))) s)
        ≡ true)
      ↔ All (λ c. is_sliver_byte c ≡ true) s
clean_iff [] = (λ _. tt, λ _. refl)
clean_iff (c ∷ s) = ground (arith, clean_iff s)

-- A name of a sliver is accepted exactly if it has 1 to 64 bytes, all letters, digits, dashes or
-- underscores, of which the first is a letter or a digit.
pub validate_sliver_name_iff :
    (s : Text)
    → (validate_sliver_name s ≡ accepted) ↔ (
        (first_is_alphanumeric s ≡ true)
        × (length s ≤ max_sliver_name_len)
        × All (λ c. is_sliver_byte c ≡ true) s)
unfolding validate_sliver_name
validate_sliver_name_iff [] = (λ e. cc, λ v. cc (v.0))
validate_sliver_name_iff (c ∷ s) =
    (λ e. ground (arith, clean_iff (c ∷ s), e), λ v. ground (arith, clean_iff (c ∷ s), v))
