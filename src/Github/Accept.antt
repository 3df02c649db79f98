-- ===== src/Github/Accept.antt =====
-- src/github.rs: the conditions of `GitHubVerifier::verify` on decoded claims.
use github_oidc_exchange.Prelude.{
  Bool, not, ◌||◌, Result, ok, ◌>>=◌, ◌>>◌, refuse_if, ok_or, ◌==◌, nat_eq, list_eq, is_empty,
}
use github_oidc_exchange.Prelude.Int.{ℤ, pos, ◌+ℤ◌, checked_sub, leb_ℤ, ltb_ℤ}
use github_oidc_exchange.Text.{Text}
use github_oidc_exchange.Contract.{github_issuer}
use github_oidc_exchange.Github.{GitHubClaims, VerifyError, invalid}
use github_oidc_exchange.Github.Checks.{
  is_exactly, numeric_identifier, bounded_ascii, github_repository, git_sha1, valid_git_ref,
  provenance_consistent,
}

unfoldable pub claims_refused : Text → ℤ → ℤ → GitHubClaims → Bool
claims_refused audience now lifetime claims =
    not (claims.iss == github_issuer)
    || not (is_exactly claims.aud audience)
    || leb_ℤ lifetime (pos 0)
    || ltb_ℤ (pos 600) lifetime
    || ltb_ℤ (now +ℤ pos 30) claims.iat
    || ltb_ℤ claims.iat claims.nbf
    || is_empty claims.sub
    || is_empty claims.jti
    || not (numeric_identifier claims.actor_id)
    || not (bounded_ascii claims.actor 128)
    || not (github_repository claims.repository)
    || not (numeric_identifier claims.repository_id)
    || not (numeric_identifier claims.repository_owner_id)
    || not (git_sha1 claims.sha)
    || not (numeric_identifier claims.run_id)
    || claims.run_attempt == 0
    || not (bounded_ascii claims.workflow_ref 2048)
    || not (git_sha1 claims.workflow_sha)
    || not (bounded_ascii claims.job_workflow_ref 2048)
    || not (git_sha1 claims.job_workflow_sha)
    || not (bounded_ascii claims.event_name 255)
    || not (valid_git_ref claims.git_ref)
    || not (provenance_consistent claims)

-- The checks after the decoding; `now` is the reading of the clock.
unfoldable pub accepted_claims : Text → ℤ → GitHubClaims → Result GitHubClaims VerifyError
accepted_claims audience now claims = do
  lifetime ← ok_or (checked_sub claims.exp claims.iat) invalid
  refuse_if (claims_refused audience now lifetime claims) invalid
  ok claims
