-- ===== src/Config/Values.antt =====
-- src/config.rs: `required` and the checks of values.
use github_oidc_exchange.Prelude.{
  ℕ, ◌^◌, [], ◌∷◌, Bool, true, false, not, ◌&&◌, ◌||◌, Option, none, some, Result, ok, err, ok_or,
  leb, ltb, ◌==◌, nat_eq, list_eq, if◌then◌else◌, all, is_empty,
}
use github_oidc_exchange.Text.{
  Text, text, len, bytes, split_once_text, contains_char, trim, is_ascii_digit, is_ascii_graphic,
}
use github_oidc_exchange.Contract.{policy_version, source_auth_policy_version}
use github_oidc_exchange.Oidc.{Url}
use github_oidc_exchange.Github.Attempt.{digits_value}
use github_oidc_exchange.Config.{
  Var, present, not_present, not_unicode, ConfigError, missing, Process,
}

abbrev pub Checked : Type 0 → Type 0
Checked A = Result A ConfigError

abbrev is_some {ℓ} : {A : Type ℓ} → Option A → Bool
is_some none = false
is_some (some a) = true

abbrev pub https_url : Option Url → Bool
https_url none = false
https_url (some url) =
    url.scheme == text "https"
    && is_some url.host_str
    && is_empty url.username
    && not (is_some url.password)
    && not (is_some url.query)
    && not (is_some url.fragment)

unfoldable pub valid_https_url : (Text → Option Url) → Text → Bool
valid_https_url parse value = https_url (parse value)

abbrev authority_parts : Option (Text × Text) → Option Text
authority_parts none = none
authority_parts (some (scheme, authority)) = some authority

unfoldable pub valid_issuer_url : (Text → Option Url) → Text → Bool
valid_issuer_url parse value = elim (authority_parts (split_once_text (text "://") value)) [
  | none ↦ false
  | some authority ↦
      not (contains_char b'/' authority) && leb (len value) 2048 && https_url (parse value)
]

unfoldable pub valid_exchange_audience : Text → Bool
valid_exchange_audience value =
    not (is_empty value) && leb (len value) 255 && all is_ascii_graphic (bytes value)

unfoldable pub valid_github_jwks_max_staleness : ℕ → Bool
valid_github_jwks_max_staleness seconds = leb 600 seconds && leb seconds 604800

unfoldable pub supported_policy_version : Text → Bool
supported_policy_version value = value == policy_version || value == source_auth_policy_version

abbrev digits_only : Text → Option ℕ
digits_only s =
    if is_empty s || not (all is_ascii_digit s) || not (ltb (digits_value 0 s) (2 ^ 64))
    then none
    else some (digits_value 0 s)

-- `str::parse::<u64>`: digits, after a `+` or none.
unfoldable pub parse_u64 : Text → Option ℕ
parse_u64 [] = none
parse_u64 (c ∷ s) = if c == b'+' then digits_only s else digits_only (c ∷ s)

-- `env::var(name).ok()`.
abbrev pub value_of : Var → Option Text
value_of (present value) = some value
value_of not_present = none
value_of not_unicode = none

abbrev pub or_default : Option Text → Text → Text
or_default none default = default
or_default (some value) default = value

abbrev pub trimmed : Option Text → Option Text
trimmed none = none
trimmed (some value) = if is_empty (trim value) then none else some (trim value)

abbrev pub keep_if {ℓ} : {A : Type ℓ} → (A → Bool) → Option A → Option A
keep_if p none = none
keep_if p (some a) = if p a then some a else none

module _ {A : Type 0} (process : Process A) where
  unfoldable pub required : Text → Checked Text
  required name = ok_or (trimmed (value_of (process.var name))) (missing name)

  unfoldable pub var_or : Text → Text → Text
  var_or name default = or_default (value_of (process.var name)) default

  -- The three `.._ENABLED` variables.
  abbrev pub switch : ConfigError → Var → Checked Bool
  switch e (present value) =
      if value == text "true" then ok true else if value == text "false" then ok false else err e
  switch e not_present = ok false
  switch e not_unicode = err e

  unfoldable pub enabled : Text → ConfigError → Checked Bool
  enabled name e = switch e (process.var name)
