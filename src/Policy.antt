-- ===== src/Policy.antt =====
-- src/policy.rs: the GitHub authorization policy, versions 5 and 6. A `HashMap` is the list of its
-- entries in iteration order; a message of an error is a `String`.
pub mod Checks
pub mod Validate
pub mod Authorize
pub mod Unambiguous
pub mod Admission
pub mod Vouched
pub mod Actors
use github_oidc_exchange.Prelude.{Bool, List, Option, String}
use github_oidc_exchange.Text.{Text, text}

abbrev pub service_prefix : Text
service_prefix = text "agents.apelogic.ai/service-principal:"

abbrev pub acting_prefix : Text
acting_prefix = text "agents.apelogic.ai/acting-user:"

abbrev pub canonical_user_prefix : Text
canonical_user_prefix = text "agents.apelogic.ai/canonical-user:"

pub record RepositoryPolicy : Type 0 where
  pub owner_id : Text
  pub repository_id : Text
  pub subjects : Option (List Text)
  pub events : Option (List Text)
  pub refs : Option (List Text)
  pub job_workflow_refs : Option (List Text)
  pub job_workflow_shas : Option (List Text)

pub record Actor : Type 0 where
  pub email : Text
  pub canonical_user_id : Text
  pub verified : Bool

pub record Policy : Type 0 where
  pub version : Text
  pub service_group : Text
  pub acting_group_prefix : Option Text
  pub allowed_email_domains : Option (List Text)
  pub repositories : List RepositoryPolicy
  pub actors : Option (List (Text × Actor))

pub record Identity : Type 0 where
  pub actor_id : Text
  pub actor_login : Option Text
  pub email : Option Text
  pub email_verified : Option Bool
  pub subject : Text
  pub groups : Option (List Text)
  pub identity_contract : Text
  pub repository : Text
  pub workflow_ref : Text
  pub job_workflow_ref : Text

pub data PolicyError : Type 0 where
  invalid : String → PolicyError
  unauthorized : PolicyError
