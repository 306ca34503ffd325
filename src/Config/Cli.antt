-- ===== src/Config/Cli.antt =====
-- src/cli/validation.rs: the hostnames, names and tags that the command line accepts. Text is ASCII.
pub mod Agree
use nano_rs.Common.{
  ℕ, Bool, true, false, not, ◌&&◌, ◌||◌, Option, none, some, List, [], ◌∷◌, Text, bytes, is_empty,
  length, keep, contains, ltb, ◌==◌, if◌then◌else◌,
}
use nano_rs.Config.Hostname.{starts_with, ends_with, contains_dotdot, is_ascii_alphanumeric}

-- An error with the suggestion or the reason that it gives: a constructor for each format string.
pub data CliError : Type 0 where
  empty_input too_long : CliError
  invalid_characters : (characters : Text) → CliError
  consecutive_dots leading_byte trailing_byte bad_first_character : CliError

pub data CliResult : Type 0 where
  accepted : CliResult
  refused : CliError → CliResult

abbrev pub valid_hostname_chars : Text
valid_hostname_chars = bytes "abcdefghijklmnopqrstuvwxyzABCDEFGHIJKLMNOPQRSTUVWXYZ0123456789-."

unfoldable pub validate_hostname : Text → CliResult
unfolding contains contains_dotdot
validate_hostname input =
    let invalid_chars = keep (λ c. not (contains c valid_hostname_chars)) input in
    if is_empty input
    then refused empty_input
    else if ltb 253 (length input)
    then refused too_long
    else if not (is_empty invalid_chars)
    then refused (invalid_characters invalid_chars)
    else if contains_dotdot input
    then refused consecutive_dots
    else if starts_with b'.' input || starts_with b'-' input
    then refused leading_byte
    else if ends_with b'.' input || ends_with b'-' input
    then refused trailing_byte
    else accepted

abbrev pub max_sliver_name_len : ℕ
max_sliver_name_len = 64

abbrev pub first_is_alphanumeric : Text → Bool
first_is_alphanumeric [] = false
first_is_alphanumeric (c ∷ s) = is_ascii_alphanumeric c

unfoldable pub validate_sliver_name : Text → CliResult
validate_sliver_name input =
    let invalid =
      keep (λ c. not (is_ascii_alphanumeric c) && (not (c == b'-') && not (c == b'_'))) input in
    if is_empty input
    then refused empty_input
    else if ltb max_sliver_name_len (length input)
    then refused too_long
    else if not (first_is_alphanumeric input)
    then refused bad_first_character
    else if not (is_empty invalid)
    then refused (invalid_characters invalid)
    else accepted

unfoldable pub validate_tag : Text → CliResult
unfolding contains
validate_tag tag =
    let invalid = keep (λ c. not (is_ascii_alphanumeric c) && not (contains c (bytes "._-"))) tag in
    if ltb 32 (length tag)
    then refused too_long
    else if not (is_empty invalid)
    then refused (invalid_characters invalid)
    else accepted
