-- ===== src/Config/FromEnv.antt =====
-- src/config.rs: the four `from_env`.
use github_oidc_exchange.Prelude.{
  ℕ, Bool, true, false, not, ◌&&◌, Option, none, some, Result, ok, err, ◌>>=◌, ◌>>◌, ok_or,
  refuse_if, leb, Eq, ◌==◌, nat_eq, list_eq, if◌then◌else◌,
}
use github_oidc_exchange.Text.{Text, text, strip_suffix, trim_end_matches}
use github_oidc_exchange.Contract.{policy_version}
use github_oidc_exchange.Config.{
  Config, WorkloadConfig, GenericOidcConfig, BrowserHop1Config, ConfigError, Process,
}
use github_oidc_exchange.Config.Values.{
  Checked, valid_https_url, valid_issuer_url, valid_exchange_audience,
  valid_github_jwks_max_staleness, supported_policy_version, parse_u64, keep_if, required, var_or,
  enabled,
}

abbrev pub default_jwks_max_staleness : Text
default_jwks_max_staleness = text "21600"

-- `.strip_suffix('/').unwrap_or(..)`.
abbrev pub without_slash : Text → Text
without_slash value = elim (strip_suffix (text "/") value) [ none ↦ value | some rest ↦ rest ]

abbrev result_ok {ℓ} : {A : Type ℓ} → Result A ConfigError → Option A
result_ok (ok a) = some a
result_ok (err e) = none

abbrev pub is_set {ℓ} : {A : Type ℓ} → Option A → Bool
is_set none = false
is_set (some a) = true

module _ {A : Type 0} ⦃e : Eq A⦄ (process : Process A) where
  abbrev pub workload_values : Checked (WorkloadConfig A)
  workload_values = do
    output_audience ← required process (text "WORKLOAD_OUTPUT_AUDIENCE")
    refuse_if (not (output_audience == text "openshell-api"))
        ConfigError.invalid_workload_output_audience
    listen_address ←
        ok_or
          (process.parse_address
            (var_or process (text "WORKLOAD_LISTEN_ADDRESS") (text "0.0.0.0:8443")))
          ConfigError.invalid_workload_listen_address
    input_audience ← required process (text "WORKLOAD_INPUT_AUDIENCE")
    policy_file ← required process (text "WORKLOAD_POLICY_FILE")
    rsa_keyring_file ← required process (text "WORKLOAD_RSA_KEYRING_FILE")
    tls_certificate_file ← required process (text "TLS_CERTIFICATE_FILE")
    tls_private_key_file ← required process (text "TLS_PRIVATE_KEY_FILE")
    ok (record {
      listen_address = listen_address;
      input_audience = input_audience;
      output_audience = output_audience;
      policy_file = policy_file;
      rsa_keyring_file = rsa_keyring_file;
      tls_certificate_file = tls_certificate_file;
      tls_private_key_file = tls_private_key_file;
    })

  abbrev pub some_of : {B : Type 0} → Checked B → Checked (Option B)
  some_of r = r >>= λ b. ok (some b)

  abbrev pub conflicts : A → Option (WorkloadConfig A) → Bool
  conflicts public_listen_address none = false
  conflicts public_listen_address (some workload) = workload.listen_address == public_listen_address

  unfoldable pub workload_from_env : A → Checked (Option (WorkloadConfig A))
  workload_from_env public_listen_address = do
    workload_enabled ←
        enabled process (text "WORKLOAD_EXCHANGE_ENABLED") ConfigError.invalid_workload_enabled
    workload ← if workload_enabled then some_of workload_values else ok none
    refuse_if (conflicts public_listen_address workload) ConfigError.conflicting_listen_addresses
    ok workload

  abbrev pub browser_values : Checked BrowserHop1Config
  browser_values = do
    issuer ← required process (text "BROWSER_HOP1_STEWARD_ISSUER")
    let steward_issuer = trim_end_matches b'/' issuer
    refuse_if (not (valid_https_url process.parse_url steward_issuer))
        ConfigError.invalid_browser_hop1_steward_issuer
    output_audience ← required process (text "BROWSER_HOP1_OUTPUT_AUDIENCE")
    refuse_if (not (valid_https_url process.parse_url output_audience))
        ConfigError.invalid_browser_hop1_output_audience
    assertion_audience ← required process (text "BROWSER_HOP1_ASSERTION_AUDIENCE")
    steward_jwks_file ← required process (text "BROWSER_HOP1_STEWARD_JWKS_FILE")
    ok (record {
      steward_issuer = steward_issuer;
      assertion_audience = assertion_audience;
      steward_jwks_file = steward_jwks_file;
      output_audience = output_audience;
    })

  unfoldable pub browser_from_env : Bool → Checked (Option BrowserHop1Config)
  browser_from_env workload_enabled = do
    on ← enabled process (text "BROWSER_HOP1_ENABLED") ConfigError.invalid_browser_hop1_enabled
    if on
        then refuse_if (not workload_enabled) ConfigError.browser_hop1_requires_workload
          >> some_of browser_values
        else ok none

  abbrev oidc_values : Checked GenericOidcConfig
  oidc_values = do
    policy_file ← required process (text "GENERIC_OIDC_POLICY_FILE")
    ok (record {
      policy_file = policy_file;
      additional_ca_file = result_ok (required process (text "GENERIC_OIDC_ADDITIONAL_CA_FILE"));
    })

  unfoldable pub oidc_from_env : Checked (Option GenericOidcConfig)
  oidc_from_env = do
    on ← enabled process (text "GENERIC_OIDC_ENABLED") ConfigError.invalid_generic_oidc_enabled
    if on then some_of oidc_values else ok none

  -- The values of the two variables, where they are in range.
  abbrev pub threshold : Option ℕ
  threshold =
      keep_if (λ seconds. leb 120 seconds && leb seconds 31536000)
        (parse_u64 (var_or process (text "KEY_EXPIRY_READINESS_THRESHOLD_SECONDS") (text "604800")))

  abbrev pub staleness : Option ℕ
  staleness = keep_if valid_github_jwks_max_staleness (
      parse_u64
        (var_or process (text "GITHUB_JWKS_MAX_STALENESS_SECONDS") default_jwks_max_staleness))

  -- `Config::from_env`.
  unfoldable pub from_env : Checked (Config A)
  from_env = do
    issuer ← required process (text "ISSUER_URL")
    let issuer_url = without_slash issuer
    refuse_if (not (valid_issuer_url process.parse_url issuer_url)) ConfigError.invalid_issuer
    output_audience ← required process (text "OUTPUT_AUDIENCE")
    refuse_if (not (output_audience == text "steward-task-api")) ConfigError.invalid_output_audience
    listen_address ←
        ok_or (process.parse_address (var_or process (text "LISTEN_ADDRESS") (text "0.0.0.0:8080")))
          ConfigError.invalid_listen_address
    workload ← workload_from_env listen_address
    browser_hop1 ← browser_from_env (is_set workload)
    generic_oidc ← oidc_from_env
    github_exchange_audience ← required process (text "GITHUB_EXCHANGE_AUDIENCE")
    refuse_if (not (valid_exchange_audience github_exchange_audience))
        ConfigError.invalid_github_exchange_audience
    let expected_policy_version = var_or process (text "EXPECTED_POLICY_VERSION") policy_version
    refuse_if (not (supported_policy_version expected_policy_version))
        ConfigError.invalid_expected_policy_version
    key_expiry_readiness_threshold ←
        ok_or threshold ConfigError.invalid_key_expiry_readiness_threshold
    github_jwks_max_staleness ← ok_or staleness ConfigError.invalid_github_jwks_max_staleness
    policy_file ← required process (text "POLICY_FILE")
    keyring_file ← required process (text "KEYRING_FILE")
    replay_lease_namespace ← required process (text "REPLAY_LEASE_NAMESPACE")
    ok (record {
      issuer_url = issuer_url;
      github_exchange_audience = github_exchange_audience;
      expected_policy_version = expected_policy_version;
      output_audience = output_audience;
      policy_file = policy_file;
      keyring_file = keyring_file;
      replay_lease_namespace = replay_lease_namespace;
      listen_address = listen_address;
      token_ttl = 120;
      key_expiry_readiness_threshold = key_expiry_readiness_threshold;
      github_jwks_max_staleness = github_jwks_max_staleness;
      generic_oidc = generic_oidc;
      workload = workload;
      browser_hop1 = browser_hop1;
    })
