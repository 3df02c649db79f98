-- ===== src/Config.antt =====
-- src/config.rs: the configuration and its errors. The environment, the parser of URLs and that of
-- addresses are parameters.
pub mod Values
pub mod FromEnv
pub mod Parts
pub mod Valid
use github_oidc_exchange.Prelude.{ℕ, Option}
use github_oidc_exchange.Text.{Text, text}
use github_oidc_exchange.Oidc.{Url}

-- `env::var` of a name.
pub data Var : Type 0 where
  present : Text → Var
  not_present not_unicode : Var

-- `A` is the type of socket addresses.
pub record WorkloadConfig (A : Type 0) : Type 0 where
  pub listen_address : A
  pub input_audience : Text
  pub output_audience : Text
  pub policy_file : Text
  pub rsa_keyring_file : Text
  pub tls_certificate_file : Text
  pub tls_private_key_file : Text

pub record GenericOidcConfig : Type 0 where
  pub policy_file : Text
  pub additional_ca_file : Option Text

pub record BrowserHop1Config : Type 0 where
  pub steward_issuer : Text
  pub assertion_audience : Text
  pub steward_jwks_file : Text
  pub output_audience : Text

-- Durations are in seconds.
pub record Config (A : Type 0) : Type 0 where
  pub issuer_url : Text
  pub github_exchange_audience : Text
  pub expected_policy_version : Text
  pub output_audience : Text
  pub policy_file : Text
  pub keyring_file : Text
  pub replay_lease_namespace : Text
  pub listen_address : A
  pub token_ttl : ℕ
  pub key_expiry_readiness_threshold : ℕ
  pub github_jwks_max_staleness : ℕ
  pub generic_oidc : Option GenericOidcConfig
  pub workload : Option (WorkloadConfig A)
  pub browser_hop1 : Option BrowserHop1Config

pub data ConfigError : Type 0 where
  missing : Text → ConfigError
  invalid_issuer invalid_output_audience invalid_github_exchange_audience : ConfigError
  invalid_expected_policy_version invalid_listen_address : ConfigError
  invalid_key_expiry_readiness_threshold invalid_github_jwks_max_staleness : ConfigError
  invalid_workload_listen_address conflicting_listen_addresses : ConfigError
  invalid_workload_enabled invalid_generic_oidc_enabled : ConfigError
  invalid_workload_output_audience invalid_browser_hop1_enabled : ConfigError
  browser_hop1_requires_workload invalid_browser_hop1_steward_issuer : ConfigError
  invalid_browser_hop1_output_audience : ConfigError

pub record Process (A : Type 0) : Type 0 where
  pub var : Text → Var
  pub parse_url : Text → Option Url
  pub parse_address : Text → Option A
