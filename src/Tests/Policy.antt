-- ===== src/Tests/Policy.antt =====
-- src/policy.rs at concrete inputs.
use github_oidc_exchange.Prelude.{
  ◌≤◌, ◌↔◌, ◌≡◌, refl, true, List, [], ◌∷◌, none, some, ok, any, all, filter, get, contains,
  collect_set, only, list_beq, length, nat_eq, list_eq,
}
use github_oidc_exchange.Prelude.Int.{pos}
use github_oidc_exchange.Text.{
  Text, text, utf8, bytes, len, strip_prefix, starts_with, ends_with, contains_char, split_once,
  is_ascii_digit, is_lower_hex, is_whitespace, to_ascii_lowercase,
}
use github_oidc_exchange.Sort.{text_le, insert_sorted, sort}
use github_oidc_exchange.Contract.{source_auth_policy_version}
use github_oidc_exchange.Github.{GitHubClaims, Audience}
use github_oidc_exchange.Policy.{Policy, RepositoryPolicy, Actor, Identity, acting_prefix}
use github_oidc_exchange.Policy.Checks.{
  decimal_identifier, numeric_identifier, canonical_email, canonical_user_id, require_values,
  validate_repository_ids, validate_domains, actor_refused, validate_actors_from, validate_actors,
  optional_selector_matches,
}
use github_oidc_exchange.Policy.Validate.{
  ambiguous, note_rule, validate_selectors_v6, validate_repositories_v6, validate_actors_v6,
  validate_v6, validate,
}
use github_oidc_exchange.Policy.Authorize.{
  rule_matches_v6, verified_actor, actor_groups, subject_of, optional_actor, actor_claims,
  authorize_v6, authorize, identity_contract,
}
use github_oidc_exchange.Policy.Unambiguous.{validate-matching-le_one}
use github_oidc_exchange.Policy.Admission.{ActorAdmitted, authorize_iff}
use github_oidc_exchange.Policy.Vouched.{IsVouched}
use github_oidc_exchange.Policy.Actors.{
  validate-canonical_injective, authorize_sound, authorize-email,
}

abbrev ann : Actor
ann = record {
  email = text "ann@example.com";
  canonical_user_id = text "usr_0123456789abcdef0123456789abcdef";
  verified = true;
}

abbrev actors : List (Text × Actor)
actors = (text "77", ann) ∷ []

abbrev rule : Text → Text → RepositoryPolicy
rule owner_id repository_id = record {
  owner_id = owner_id;
  repository_id = repository_id;
  subjects = none;
  events = some (text "push" ∷ []);
  refs = none;
  job_workflow_refs = none;
  job_workflow_shas = none;
}

-- A repository of one owner, and another owner as a whole.
abbrev pub policy : Policy
policy = record {
  version = source_auth_policy_version;
  service_group = text "agents.apelogic.ai/service-principal:ci";
  acting_group_prefix = some acting_prefix;
  allowed_email_domains = some (text "example.com" ∷ []);
  repositories = rule (text "10") (text "20") ∷ rule (text "11") (text "*") ∷ [];
  actors = some actors;
}

abbrev pub claims : GitHubClaims
claims = record {
  iss = text "i";
  sub = text "repo:o/r";
  aud = Audience.one (text "a");
  exp = pos 1000;
  iat = pos 400;
  nbf = pos 400;
  jti = text "a";
  actor_id = text "77";
  actor = text "ann";
  repository = text "o/r";
  repository_id = text "20";
  repository_owner_id = text "10";
  sha = text "c";
  run_id = text "1";
  run_attempt = 1;
  workflow_ref = text "w";
  workflow_sha = text "d";
  job_workflow_ref = text "w";
  job_workflow_sha = text "d";
  event_name = text "push";
  git_ref = text "refs/heads/main";
}

abbrev pub identity : Identity
identity = record {
  actor_id = text "77";
  actor_login = some (text "ann");
  email = some (text "ann@example.com");
  email_verified = some true;
  subject = text "github-actions:actor:77";
  groups = some (
      text "agents.apelogic.ai/acting-user:ann@example.com"
      ∷ text "agents.apelogic.ai/canonical-user:usr_0123456789abcdef0123456789abcdef"
      ∷ text "agents.apelogic.ai/service-principal:ci"
      ∷ []);
  identity_contract = text "steward-task-v3";
  repository = text "10/20";
  workflow_ref = text "w";
  job_workflow_ref = text "w";
}

valid : validate policy ≡ ok tt
unfolding validate starts_with strip_prefix list_beq validate_v6 validate_domains require_values
    collect_set contains any all ends_with contains_char to_ascii_lowercase validate_actors_v6
    validate_actors validate_actors_from actor_refused numeric_identifier decimal_identifier len
    bytes utf8 is_ascii_digit canonical_email split_once is_whitespace canonical_user_id
    is_lower_hex validate_repositories_v6 validate_repository_ids ambiguous note_rule
    validate_selectors_v6
valid = refl

pub admitted : authorize policy claims ≡ ok identity
unfolding authorize authorize_v6 list_beq starts_with strip_prefix numeric_identifier
    decimal_identifier len bytes utf8 is_ascii_digit all filter rule_matches_v6
    optional_selector_matches contains only optional_actor verified_actor get actor_claims
    actor_groups sort insert_sorted text_le
admitted = refl

validate-matching-le_one_example : length (filter (rule_matches_v6 claims) policy.repositories) ≤ 1
validate-matching-le_one_example = validate-matching-le_one policy claims refl valid

authorize_iff_example : ((id : Identity) × (authorize policy claims ≡ ok id)) ↔ (
    (numeric_identifier claims.actor_id ≡ true)
    × (any (rule_matches_v6 claims) policy.repositories ≡ true)
    × ActorAdmitted policy claims)
authorize_iff_example = authorize_iff policy claims refl valid

validate-canonical_injective_example : text "77" ≡ text "77"
unfolding get list_beq
validate-canonical_injective_example =
    validate-canonical_injective policy actors (text "77") (text "77") ann ann valid refl refl refl
      refl

authorize_sound_example :
    (identity.identity_contract ≡ identity_contract policy)
    × (identity.actor_id ≡ claims.actor_id)
    × (identity.subject ≡ subject_of claims.actor_id)
    × IsVouched policy claims identity
authorize_sound_example = authorize_sound policy claims identity admitted

authorize-email_example :
    (domains : List Text) × (policy.allowed_email_domains ≡ some domains)
    × (canonical_email (text "ann@example.com") ≡ true)
    × (any (λ domain. ends_with (b'@' ∷ domain) (text "ann@example.com")) domains ≡ true)
authorize-email_example =
    authorize-email policy claims identity (text "ann@example.com") valid admitted refl
