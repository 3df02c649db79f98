-- ===== src/Workload.antt =====
-- src/workload.rs: the workload policy's documents, the answers of a TokenReview, and the errors.
pub mod Identities
pub mod Review
pub mod Accepted
pub mod Service
pub mod Unique
pub mod Issue
pub mod Issued
use github_oidc_exchange.Prelude.{ℕ, Bool, List, Option, String}
use github_oidc_exchange.Prelude.Int.{ℤ}
use github_oidc_exchange.Text.{Text, text}

abbrev pub max_assertion_bytes : ℕ
max_assertion_bytes = 32768

abbrev pub service_account_prefix : Text
service_account_prefix = text "system:serviceaccount:"

abbrev pub subject_prefix : Text
subject_prefix = text "kubernetes:serviceaccount:"

pub record WorkloadTaskBinding : Type 0 where
  pub service : Text
  pub owner_canonical_user_id : Text
  pub owner_email : Text

pub record WorkloadIdentity : Type 0 where
  pub username : Text
  pub subject : Text
  pub roles : List Text
  pub task : Option WorkloadTaskBinding

pub record WorkloadPolicy : Type 0 where
  pub version : Text
  pub identities : List WorkloadIdentity

pub data WorkloadPolicyError : Type 0 where
  invalid : String → WorkloadPolicyError
  unauthorized : WorkloadPolicyError

pub data ReviewError : Type 0 where
  invalid unavailable : ReviewError

pub record TokenReviewUser : Type 0 where
  pub username : Option Text

-- The body of an answer, as the code reads it.
pub record TokenReviewStatus : Type 0 where
  pub authenticated : Option Bool
  pub audiences : Option (List Text)
  pub user : Option TokenReviewUser

pub record TokenReviewResponse : Type 0 where
  pub status : Option TokenReviewStatus

pub record ProjectedTokenClaims : Type 0 where
  pub jti : Text
  pub exp : ℤ
