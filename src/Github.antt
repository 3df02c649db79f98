-- ===== src/Github.antt =====
-- src/github.rs: the claims of a GitHub Actions assertion.
pub mod Checks
pub mod Attempt
pub mod RoundTrip
pub mod Cache
pub mod Key
pub mod Accept
pub mod Verify
pub mod Provenance
pub mod Accepted
pub mod Fresh
pub mod Published
pub mod Refreshes
pub mod Verified
use github_oidc_exchange.Prelude.{ℕ, List, String}
use github_oidc_exchange.Prelude.Int.{ℤ}
use github_oidc_exchange.Text.{Text}

pub data Audience : Type 0 where
  one : Text → Audience
  many : List Text → Audience
  missing : Audience

pub record GitHubClaims : Type 0 where
  pub iss : Text
  pub sub : Text
  pub aud : Audience
  pub exp : ℤ
  pub iat : ℤ
  pub nbf : ℤ
  pub jti : Text
  pub actor_id : Text
  pub actor : Text
  pub repository : Text
  pub repository_id : Text
  pub repository_owner_id : Text
  pub sha : Text
  pub run_id : Text
  pub run_attempt : ℕ
  pub workflow_ref : Text
  pub workflow_sha : Text
  pub job_workflow_ref : Text
  pub job_workflow_sha : Text
  pub event_name : Text
  pub git_ref : Text

pub data VerifyError : Type 0 where
  invalid : VerifyError
  keys_unavailable : String → String → VerifyError
