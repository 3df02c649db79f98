-- ===== src/Policy/Authorize.antt =====
-- src/policy.rs: `Policy::authorize` and `Policy::identity_contract`.
use github_oidc_exchange.Prelude.{
  List, [], ◌∷◌, ◌++◌, Bool, true, ◌&&◌, ◌||◌, Option, none, some, ◌==◌, nat_eq, list_eq,
  if◌then◌else◌, filter, only, get, not, Result, ok, err, ◌>>=◌, ◌>>◌, refuse_if, ok_or,
}
use github_oidc_exchange.Contract.{
  policy_version, source_auth_policy_version, identity_contract_v2, source_auth_identity_contract,
}
use github_oidc_exchange.Text.{Text, text}
use github_oidc_exchange.Sort.{sort}
use github_oidc_exchange.Github.{GitHubClaims}
use github_oidc_exchange.Policy.{
  Policy, RepositoryPolicy, Actor, Identity, PolicyError, unauthorized, canonical_user_prefix,
}
use github_oidc_exchange.Policy.Checks.{
  selector_matches, optional_selector_matches, numeric_identifier,
}

-- The test by which version 5 filters the rules.
unfoldable pub rule_matches_v5 : GitHubClaims → RepositoryPolicy → Bool
rule_matches_v5 claims repository =
    repository.owner_id == claims.repository_owner_id
    && repository.repository_id == claims.repository_id
    && selector_matches repository.subjects claims.sub
    && selector_matches repository.events claims.event_name
    && selector_matches repository.refs claims.git_ref

unfoldable pub rule_matches_v6 : GitHubClaims → RepositoryPolicy → Bool
rule_matches_v6 claims repository =
    repository.owner_id == claims.repository_owner_id
    && (repository.repository_id == text "*" || repository.repository_id == claims.repository_id)
    && optional_selector_matches repository.subjects claims.sub
    && optional_selector_matches repository.events claims.event_name
    && optional_selector_matches repository.refs claims.git_ref
    && optional_selector_matches repository.job_workflow_refs claims.job_workflow_ref
    && optional_selector_matches repository.job_workflow_shas claims.job_workflow_sha

-- `actors.get(id).filter(|actor| actor.verified)`.
unfoldable pub verified_actor : List (Text × Actor) → Text → Option Actor
verified_actor actors actor_id = elim (get actors actor_id) [
  | none ↦ none
  | some actor ↦ if actor.verified then some actor else none
]

abbrev pub configured_actor : Option (List (Text × Actor)) → Text → Option Actor
configured_actor none actor_id = none
configured_actor (some actors) actor_id = verified_actor actors actor_id

unfoldable pub actor_groups : Policy → Text → Actor → List Text
actor_groups policy acting_group_prefix actor = sort (
    policy.service_group
    ∷ (acting_group_prefix ++ actor.email)
    ∷ (canonical_user_prefix ++ actor.canonical_user_id)
    ∷ [])

abbrev pub subject_of : Text → Text
subject_of actor_id = text "github-actions:actor:" ++ actor_id

unfoldable pub authorize_v5 : Policy → GitHubClaims → Result Identity PolicyError
authorize_v5 policy claims = do
  actor ← ok_or (configured_actor policy.actors claims.actor_id) unauthorized
  repository ← ok_or (only (filter (rule_matches_v5 claims) policy.repositories)) unauthorized
  acting_group_prefix ← ok_or policy.acting_group_prefix unauthorized
  ok (record {
    actor_id = claims.actor_id;
    actor_login = none;
    email = some actor.email;
    email_verified = some actor.verified;
    subject = subject_of claims.actor_id;
    groups = some (actor_groups policy acting_group_prefix actor);
    identity_contract = identity_contract_v2;
    repository = repository.owner_id ++ (b'/' ∷ repository.repository_id);
    workflow_ref = claims.workflow_ref;
    job_workflow_ref = claims.job_workflow_ref;
  })

-- The actor that version 6 asks for, if actors are configured.
unfoldable pub optional_actor :
    Option (List (Text × Actor)) → Text → Result (Option Actor) PolicyError
optional_actor none actor_id = ok none
optional_actor (some actors) actor_id = do
  actor ← ok_or (verified_actor actors actor_id) unauthorized
  ok (some actor)

-- `(email, email_verified, groups)`.
unfoldable pub actor_claims :
    Policy → Option Actor → Result (Option Text × Option Bool × Option (List Text)) PolicyError
actor_claims policy none = ok (none, none, none)
actor_claims policy (some actor) = do
  acting_group_prefix ← ok_or policy.acting_group_prefix unauthorized
  ok (some actor.email, some true, some (actor_groups policy acting_group_prefix actor))

unfoldable pub authorize_v6 : Policy → GitHubClaims → Result Identity PolicyError
authorize_v6 policy claims = do
  refuse_if (not (numeric_identifier claims.actor_id)) unauthorized
  rule ← ok_or (only (filter (rule_matches_v6 claims) policy.repositories)) unauthorized
  actor ← optional_actor policy.actors claims.actor_id
  known ← actor_claims policy actor
  ok (record {
    actor_id = claims.actor_id;
    actor_login = some claims.actor;
    email = known.0;
    email_verified = known.1;
    subject = subject_of claims.actor_id;
    groups = known.2;
    identity_contract = source_auth_identity_contract;
    repository = claims.repository_owner_id ++ (b'/' ∷ claims.repository_id);
    workflow_ref = claims.workflow_ref;
    job_workflow_ref = claims.job_workflow_ref;
  })

unfoldable pub authorize : Policy → GitHubClaims → Result Identity PolicyError
authorize policy claims =
    if policy.version == policy_version
    then authorize_v5 policy claims
    else if policy.version == source_auth_policy_version
    then authorize_v6 policy claims
    else err unauthorized

unfoldable pub identity_contract : Policy → Text
identity_contract policy =
    if policy.version == source_auth_policy_version
    then source_auth_identity_contract
    else identity_contract_v2
