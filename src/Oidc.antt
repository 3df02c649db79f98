-- ===== src/Oidc.antt =====
-- src/oidc.rs: the generic OIDC policy, the claims of an assertion and the errors.
pub mod Policy
pub mod Bindings
pub mod Claims
pub mod Accepted
pub mod Identifiers
pub mod Cache
pub mod Fresh
pub mod Verify
pub mod Verified
pub mod Configured
pub mod Service
pub mod Issued
use github_oidc_exchange.Prelude.{ℕ, Bool, List, Option, String}
use github_oidc_exchange.Prelude.Int.{ℤ, pos}
use github_oidc_exchange.Text.{Text, text}
use github_oidc_exchange.Workload.{WorkloadTaskBinding}

abbrev pub oidc_policy_version : Text
oidc_policy_version = text "github-oidc-exchange.apelogic.io/oidc-policy-v1"

-- A `BTreeMap` is the list of its entries in the order of the keys.
pub record OidcBinding : Type 0 where
  pub claims : List (Text × Text)
  pub task : WorkloadTaskBinding

pub record OidcProviderPolicy : Type 0 where
  pub issuer : Text
  pub audience : Text
  pub bindings : List OidcBinding

pub record OidcPolicy : Type 0 where
  pub version : Text
  pub providers : List OidcProviderPolicy

pub data OidcPolicyError : Type 0 where
  invalid : String → OidcPolicyError
  unauthorized : OidcPolicyError

-- A claim's JSON value. `number` is an integer in the range of `i64` or `u64`, and an array is the list
-- of `as_str` of its elements; all other values are `other`.
pub data Value : Type 0 where
  string : Text → Value
  number : ℤ → Value
  array : List (Option Text) → Value
  other : Value

pub record OidcClaims : Type 0 where
  pub issuer : Text
  pub subject : Text
  pub expires_at : ℤ
  pub issued_at : ℤ
  pub jti : Option Text
  pub build_number : Option ℕ
  pub values : List (Text × Value)

pub data OidcVerifyError : Type 0 where
  invalid unavailable : OidcVerifyError

-- What `reqwest::Url::parse` gives, as far as the code asks.
pub record Url : Type 0 where
  pub scheme : Text
  pub host_str : Option Text
  pub port_or_known_default : Option ℕ
  pub username : Text
  pub password : Option Text
  pub query : Option Text
  pub fragment : Option Text
