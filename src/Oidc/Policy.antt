-- ===== src/Oidc/Policy.antt =====
-- src/oidc.rs: `OidcPolicy::load`, `validate` and `authorize`. The parser of URLs is a parameter.
use github_oidc_exchange.Prelude.{
  ℕ, List, [], ◌∷◌, ◌++◌, Bool, true, false, not, ◌&&◌, ◌||◌, Option, none, some, String, Result,
  ok, ◌>>=◌, ◌>>◌, refuse_if, ok_or, map_err, leb, ltb, ◌==◌, nat_eq, list_eq, option_eq, length,
  any, all, filter, find, only, contains, get, is_empty,
}
use github_oidc_exchange.Text.{
  Text, text, len, bytes, strip_prefix, split_once, ends_with, contains_char, is_lower_hex,
  is_whitespace, is_ascii_graphic, is_ascii_alphanumeric, to_ascii_lowercase,
}
use github_oidc_exchange.Workload.{WorkloadTaskBinding}
use github_oidc_exchange.Oidc.{
  OidcPolicy, OidcProviderPolicy, OidcBinding, OidcPolicyError, OidcClaims, Value, Url,
  oidc_policy_version,
}

abbrev pub Checked : Type 0
Checked = Result (Unit {0}) OidcPolicyError

abbrev pub some_and {ℓ} : {A : Type ℓ} → Option A → (A → Bool) → Bool
some_and none p = false
some_and (some a) p = p a

abbrev is_none {ℓ} : {A : Type ℓ} → Option A → Bool
is_none none = true
is_none (some a) = false

unfoldable pub bounded_graphic : Text → ℕ → Bool
bounded_graphic value maximum =
    not (is_empty value) && leb (len value) maximum && all is_ascii_graphic (bytes value)

unfoldable pub valid_claim_name : Text → Bool
unfolding bounded_graphic
valid_claim_name value =
    bounded_graphic value 128 && not (any (λ c. c == b'.' || c == b'[' || c == b']') value)

-- No name is bound to two values by the two bindings.
unfoldable pub claim_bindings_overlap : List (Text × Text) → List (Text × Text) → Bool
claim_bindings_overlap left right =
    not (any (λ entry. some_and (get right entry.0) (λ value. not (value == entry.1))) left)

email_parts : Option (Text × Text) → Bool
email_parts none = false
email_parts (some (local, domain)) = not (is_empty local) && contains_char b'.' domain

unfoldable pub valid_task_binding : WorkloadTaskBinding → Bool
unfolding email_parts
valid_task_binding task =
    bounded_graphic task.service 128
    && some_and (strip_prefix (text "usr_") task.owner_canonical_user_id)
        (λ suffix. len suffix == 32 && all is_lower_hex (bytes suffix))
    && task.owner_email == to_ascii_lowercase task.owner_email
    && not (any is_whitespace task.owner_email)
    && email_parts (split_once b'@' task.owner_email)

abbrev pub reserved_claims : List Text
reserved_claims = text "iss" ∷ text "aud" ∷ text "exp" ∷ text "iat" ∷ text "nbf" ∷ text "jti" ∷ []

unfoldable pub claim_refused : Text × Text → Bool
claim_refused entry =
    not (valid_claim_name entry.0)
    || not (bounded_graphic entry.1 2048)
    || contains reserved_claims entry.0

-- The condition on one binding, after the bindings above it.
unfoldable pub binding_refused : List (List (Text × Text)) → OidcBinding → Bool
binding_refused bindings binding =
    is_empty binding.claims
    || ltb 16 (length binding.claims)
    || any (λ existing. claim_bindings_overlap existing binding.claims) bindings
    || not (some_and (get binding.claims (text "sub")) (λ value. bounded_graphic value 2048))
    || any claim_refused binding.claims
    || not (valid_task_binding binding.task)

unfoldable pub validate_bindings : List (List (Text × Text)) → List OidcBinding → Checked
validate_bindings bindings [] = ok tt
validate_bindings bindings (binding ∷ rest) = do
  refuse_if (binding_refused bindings binding) (
      OidcPolicyError.invalid
        "bindings require unique exact claims including sub and a valid task owner")
  validate_bindings (bindings ++ (binding.claims ∷ [])) rest

module _ (parse : Text → Option Url) where
  unfoldable pub valid_issuer : Text → Bool
  valid_issuer value =
      leb (len value) 2048
      && not (ends_with (text "/") value)
      && some_and (parse value) (λ url.
        url.scheme == text "https"
        && some_and url.host_str (λ host.
          not (is_empty host)
          && all (λ byte. is_ascii_alphanumeric byte || byte == b'.' || byte == b'-') (bytes host))
        && url.port_or_known_default == some 443
        && is_empty url.username
        && is_none url.password
        && is_none url.query
        && is_none url.fragment)

  unfoldable pub provider_refused : List Text → OidcProviderPolicy → Bool
  unfolding valid_issuer
  provider_refused issuers provider =
      not (valid_issuer provider.issuer)
      || not (bounded_graphic provider.audience 255)
      || contains issuers provider.issuer
      || is_empty provider.bindings
      || ltb 256 (length provider.bindings)

  unfoldable pub validate_providers : List Text → List OidcProviderPolicy → Checked
  unfolding provider_refused
  validate_providers issuers [] = ok tt
  validate_providers issuers (provider ∷ rest) = do
    refuse_if (provider_refused issuers provider) (
        OidcPolicyError.invalid
          "providers require unique HTTPS issuers, exact audiences, and bindings")
    validate_bindings [] provider.bindings
    validate_providers (provider.issuer ∷ issuers) rest

  unfoldable pub validate : OidcPolicy → Checked
  unfolding validate_providers
  validate policy = do
    refuse_if (not (policy.version == oidc_policy_version))
        (OidcPolicyError.invalid "unsupported version")
    refuse_if (is_empty policy.providers || ltb 32 (length policy.providers))
        (OidcPolicyError.invalid "providers must contain between 1 and 32 entries")
    validate_providers [] policy.providers

  -- `opened` is what opening and parsing the file gives, an error as its message.
  unfoldable pub load : Result OidcPolicy String → Result OidcPolicy OidcPolicyError
  unfolding validate
  load opened = do policy ← map_err OidcPolicyError.invalid opened; validate policy; ok policy

abbrev pub as_str : Option Value → Option Text
as_str (some (Value.string s)) = some s
as_str _ = none

-- The test by which `authorize` filters the bindings.
unfoldable pub binding_matches : OidcClaims → OidcBinding → Bool
binding_matches claims binding =
    all (λ entry. some_and (as_str (get claims.values entry.0)) (λ actual. actual == entry.1))
      binding.claims

unfoldable pub authorize : OidcPolicy → OidcClaims → Result WorkloadTaskBinding OidcPolicyError
authorize policy claims = do
  provider ←
      ok_or (find (λ provider. provider.issuer == claims.issuer) policy.providers)
        OidcPolicyError.unauthorized
  binding ←
      ok_or (only (filter (binding_matches claims) provider.bindings)) OidcPolicyError.unauthorized
  ok binding.task
