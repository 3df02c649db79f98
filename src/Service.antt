-- ===== src/Service.antt =====
-- src/service.rs: the GitHub exchange. The log events and the duration histogram are left out;
-- `verify` is `GitHubVerifier::verify`.
pub mod Exchange
pub mod Issued
pub mod Replicas
pub mod Once
use github_oidc_exchange.Prelude.{ℕ, Bool, List, Option, Result, ◌++◌}
use github_oidc_exchange.Text.{Text, text}
use github_oidc_exchange.Contract.{source_provenance_contract}
use github_oidc_exchange.Github.{GitHubClaims, VerifyError}
use github_oidc_exchange.Policy.{Policy}
use github_oidc_exchange.Keys.{KeyRing}
use github_oidc_exchange.Exchange.{ReplayLedger}

pub record Metrics : Type 0 where
  pub requests : ℕ
  pub issued : ℕ
  pub denied : ℕ
  pub replayed : ℕ
  pub errors : ℕ

pub data ExchangeError : Type 0 where
  unauthorized unavailable : ExchangeError

pub record SourceRepository : Type 0 where
  pub id : Text
  pub owner_id : Text
  pub name : Text

pub record SourceRun : Type 0 where
  pub id : Text
  pub attempt : ℕ

pub record SourceWorkflow : Type 0 where
  pub workflow_ref : Text
  pub sha : Text

pub record SourceProvenance : Type 0 where
  pub contract_version : Text
  pub provider : Text
  pub repository : SourceRepository
  pub triggered_sha : Text
  pub run : SourceRun
  pub event : Text
  pub git_ref : Text
  pub actor_id : Text
  pub actor : Text
  pub caller_workflow : SourceWorkflow
  pub reusable_workflow : SourceWorkflow

pub record OutputClaims : Type 0 where
  pub iss : Text
  pub sub : Text
  pub aud : List Text
  pub exp : ℕ
  pub iat : ℕ
  pub nbf : ℕ
  pub jti : Text
  pub actor_login : Option Text
  pub email : Option Text
  pub email_verified : Option Bool
  pub groups : Option (List Text)
  pub identity_contract : Text
  pub source_provenance : SourceProvenance

pub record ExchangeService (W K : Type 0) : Type 0 where
  pub verify : Text → W → Result GitHubClaims VerifyError × W
  pub policy : Policy
  pub ledger : ReplayLedger W
  pub keys : KeyRing K
  pub issuer : Text
  pub output_audience : Text
  pub token_ttl : ℕ
  pub encode : Text → K → OutputClaims → Option Text

abbrev pub typed_git_sha1 : Text → Text
typed_git_sha1 value = text "git:sha1:" ++ value

-- `SourceProvenance::from`.
unfoldable pub source_provenance : GitHubClaims → SourceProvenance
source_provenance claims = record {
  contract_version = source_provenance_contract;
  provider = text "github";
  repository = record {
    id = claims.repository_id;
    owner_id = claims.repository_owner_id;
    name = claims.repository;
  };
  triggered_sha = typed_git_sha1 claims.sha;
  run = record { id = claims.run_id; attempt = claims.run_attempt };
  event = claims.event_name;
  git_ref = claims.git_ref;
  actor_id = claims.actor_id;
  actor = claims.actor;
  caller_workflow = record {
    workflow_ref = claims.workflow_ref;
    sha = typed_git_sha1 claims.workflow_sha;
  };
  reusable_workflow = record {
    workflow_ref = claims.job_workflow_ref;
    sha = typed_git_sha1 claims.job_workflow_sha;
  };
}
