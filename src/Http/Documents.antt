-- ===== src/Http/Documents.antt =====
-- src/http.rs: the discovery document and the key set.
use github_oidc_exchange.Prelude.{List, [], ◌∷◌, ◌++◌, Bool, Option, none, some, if◌then◌else◌}
use github_oidc_exchange.Text.{Text, text}
use github_oidc_exchange.Contract.{
  policy_version, source_auth_policy_version, identity_contract_v2, source_auth_identity_contract,
}
use github_oidc_exchange.Keys
use github_oidc_exchange.Keys.{KeyRing, PublicJwk, extend}

pub record Discovery : Type 0 where
  pub issuer : Text
  pub jwks_uri : Text
  pub token_endpoint : Text
  pub github_oidc_exchange_endpoint : Text
  pub github_oidc_audience : Text
  pub identity_contracts_supported : List Text
  pub policy_versions_supported : List Text
  pub response_types_supported : List Text
  pub subject_types_supported : List Text
  pub id_token_signing_alg_values_supported : List Text
  pub generic_oidc_exchange_endpoint : Option Text

-- `workload` and `oidc` say whether those exchanges are there.
unfoldable pub discovery : Text → Text → (workload oidc : Bool) → Discovery
discovery issuer audience workload oidc = record {
  issuer = issuer;
  jwks_uri = issuer ++ text "/jwks.json";
  token_endpoint = issuer ++ text "/v1/exchange";
  github_oidc_exchange_endpoint = issuer ++ text "/v1/exchange";
  github_oidc_audience = audience;
  identity_contracts_supported = identity_contract_v2 ∷ source_auth_identity_contract ∷ [];
  policy_versions_supported = policy_version ∷ source_auth_policy_version ∷ [];
  response_types_supported = text "id_token" ∷ [];
  subject_types_supported = text "public" ∷ [];
  id_token_signing_alg_values_supported =
      if workload then text "ES256" ∷ text "RS256" ∷ [] else text "ES256" ∷ [];
  generic_oidc_exchange_endpoint = if oidc then some (issuer ++ text "/v1/oidc/exchange") else none;
}

module _ {J K R : Type 0} (publish : K → Option J) (publish_rsa : R → Option J) where
  abbrev pub with_workload : List (PublicJwk J) → Option (KeyRing R) → List (PublicJwk J)
  with_workload keys none = keys
  with_workload keys (some workload) = extend keys (Keys.jwks publish_rsa workload)

  unfoldable pub jwks : KeyRing K → Option (KeyRing R) → List (PublicJwk J)
  jwks keys workload = with_workload (Keys.jwks publish keys) workload
