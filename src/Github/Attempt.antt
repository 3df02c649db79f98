-- ===== src/Github/Attempt.antt =====
-- src/github.rs: `numeric_string`, the form of `run_attempt` in an assertion.
use github_oidc_exchange.Prelude.{
  ℕ, ◌+◌, ◌*◌, ◌-◌, ◌^◌, [], ◌∷◌, not, ◌&&◌, ◌||◌, Option, none, some, ltb, nat_eq, list_eq,
  if◌then◌else◌, all, is_empty,
}
use github_oidc_exchange.Text.{Text, text, len, bytes, starts_with, is_ascii_digit}
use github_oidc_exchange.Oidc.Identifiers.{decimal}

-- `str::parse::<u32>` of a text of digits.
unfoldable pub digits_value : ℕ → Text → ℕ
digits_value value [] = value
digits_value value (c ∷ s) = digits_value (10 * value + (c - b'0')) s

abbrev pub parse_u32 : Text → Option ℕ
parse_u32 s = if ltb (digits_value 0 s) (2 ^ 32) then some (digits_value 0 s) else none

unfoldable pub serialize : ℕ → Text
serialize value = decimal value

unfoldable pub deserialize : Text → Option ℕ
deserialize value =
    if is_empty value
      || ltb 10 (len value)
      || not (all is_ascii_digit (bytes value))
      || ltb 1 (len value) && starts_with (text "0") value
    then none
    else parse_u32 value
