-- ===== src/Policy/Validate.antt =====
-- src/policy.rs: `Policy::load`, `Policy::validate` and the checks of the two versions.
use github_oidc_exchange.Prelude.{
  List, [], ◌∷◌, Bool, true, false, not, ◌||◌, Option, none, some, String, ◌==◌, nat_eq, list_eq,
  pair_eq, option_eq, if◌then◌else◌, any, is_empty, contains, Result, ok, err, ◌>>=◌, ◌>>◌,
  refuse_if, ok_or, map_err,
}
use github_oidc_exchange.Contract.{policy_version, source_auth_policy_version}
use github_oidc_exchange.Text.{Text, text, starts_with}
use github_oidc_exchange.Policy.{
  Policy, RepositoryPolicy, Actor, PolicyError, invalid, service_prefix, acting_prefix,
}
use github_oidc_exchange.Policy.Checks.{
  Checked, is_some_and, require_values, required_selector, validate_repository_ids,
  validate_workflow_refs, validate_workflow_shas, validate_domains, validate_subjects,
  validate_actors,
}

-- What `repository_rules` of version 5 holds: owner, repository, subjects, events and refs.
abbrev pub RuleKey : Type 0
RuleKey = Text × (Text × (List Text × (List Text × List Text)))

unfoldable pub validate_repositories_v5 : List RuleKey → List RepositoryPolicy → Checked
validate_repositories_v5 repository_rules [] = ok tt
validate_repositories_v5 repository_rules (repository ∷ rest) = do
  validate_repository_ids repository false
  refuse_if
      (is_some_and repository.job_workflow_refs (λ _. true)
        || is_some_and repository.job_workflow_shas (λ _. true))
      (invalid "job workflow selectors are supported only by policy v6")
  subjects ← required_selector "subjects" repository.subjects
  events ← required_selector "events" repository.events
  refs ← required_selector "refs" repository.refs
  let key : RuleKey = (repository.owner_id, (repository.repository_id, (subjects, (events, refs))))
  refuse_if (contains repository_rules key) (invalid "duplicate repository authorization rule")
  validate_subjects subjects
  validate_repositories_v5 (key ∷ repository_rules) rest

abbrev non_empty : List (Text × Actor) → Option (List (Text × Actor))
non_empty actors = if is_empty actors then none else some actors

abbrev and_then {ℓ κ} : {A : Type ℓ} {B : Type κ} → Option A → (A → Option B) → Option B
and_then none f = none
and_then (some a) f = f a

unfoldable pub validate_v5 : Policy → Checked
unfolding validate_repositories_v5
validate_v5 policy = do
  acting_group_prefix ←
      ok_or policy.acting_group_prefix (invalid "acting_group_prefix is required by policy v5")
  refuse_if (not (acting_group_prefix == acting_prefix))
      (invalid "acting_group_prefix does not match the Steward contract")
  allowed_email_domains ←
      ok_or policy.allowed_email_domains (invalid "allowed_email_domains is required by policy v5")
  validate_domains allowed_email_domains
  actors ←
      ok_or (and_then policy.actors non_empty) (invalid "actors must be non-empty in policy v5")
  validate_actors actors (some allowed_email_domains) false
  validate_repositories_v5 [] policy.repositories

-- What version 6 has seen of the rules above: `repository_ids` and `owner_scopes`.
pub record Scopes : Type 0 where
  pub repository_ids : List (Text × Text)
  pub owner_scopes : List Text

abbrev pub is_wildcard : RepositoryPolicy → Bool
is_wildcard repository = repository.repository_id == text "*"

unfoldable pub ambiguous : Scopes → RepositoryPolicy → Bool
ambiguous scopes repository =
    if is_wildcard repository
    then contains scopes.owner_scopes repository.owner_id
      || any (λ configured. configured.0 == repository.owner_id) scopes.repository_ids
    else contains scopes.owner_scopes repository.owner_id
      || contains scopes.repository_ids (repository.owner_id, repository.repository_id)

-- The sets after a rule that is not ambiguous.
unfoldable pub note_rule : Scopes → RepositoryPolicy → Scopes
note_rule scopes repository =
    if is_wildcard repository
    then record scopes { owner_scopes = repository.owner_id ∷ scopes.owner_scopes }
    else record scopes {
      repository_ids = (repository.owner_id, repository.repository_id) ∷ scopes.repository_ids;
    }

abbrev check_some : Option (List Text) → (List Text → Checked) → Checked
check_some none check = ok tt
check_some (some values) check = check values

unfoldable pub validate_selectors_v6 : RepositoryPolicy → Checked
validate_selectors_v6 repository = do
  check_some repository.subjects
      λ subjects. do require_values "subjects" subjects; validate_subjects subjects
  check_some repository.events λ events. require_values "events" events
  check_some repository.refs λ refs. require_values "refs" refs
  check_some repository.job_workflow_refs λ workflow_refs. do
    require_values "job_workflow_refs" workflow_refs
    validate_workflow_refs workflow_refs
  check_some repository.job_workflow_shas λ workflow_shas. do
    require_values "job_workflow_shas" workflow_shas
    validate_workflow_shas workflow_shas

unfoldable pub validate_repositories_v6 : Scopes → List RepositoryPolicy → Checked
validate_repositories_v6 scopes [] = ok tt
validate_repositories_v6 scopes (repository ∷ rest) = do
  validate_repository_ids repository true
  refuse_if (ambiguous scopes repository) (invalid "duplicate or ambiguous repository rule")
  validate_selectors_v6 repository
  validate_repositories_v6 (note_rule scopes repository) rest

-- The `match` on actors, domains and prefix.
unfoldable pub validate_actors_v6 :
    Option (List (Text × Actor)) → Option (List Text) → Option Text → Checked
validate_actors_v6 none none none = ok tt
validate_actors_v6 (some actors) (some domains) (some prefix) =
    if prefix == acting_prefix
    then refuse_if (is_empty actors) (invalid "actors must be non-empty when configured")
      >> validate_actors actors (some domains) true
    else err (
        invalid
          "actors, allowed_email_domains, and acting_group_prefix must be configured together")
validate_actors_v6 _ _ _ =
    err
      (invalid "actors, allowed_email_domains, and acting_group_prefix must be configured together")

abbrev pub no_scopes : Scopes
no_scopes = record { repository_ids = []; owner_scopes = [] }

unfoldable pub validate_v6 : Policy → Checked
unfolding validate_repositories_v6 validate_actors_v6 validate_selectors_v6
validate_v6 policy = do
  refuse_if (is_some_and policy.acting_group_prefix (λ prefix. not (prefix == acting_prefix)))
      (invalid "acting_group_prefix does not match the Steward contract")
  check_some policy.allowed_email_domains validate_domains
  validate_actors_v6 policy.actors policy.allowed_email_domains policy.acting_group_prefix
  validate_repositories_v6 no_scopes policy.repositories

abbrev pub supported_version : Text → Bool
supported_version version = version == policy_version || version == source_auth_policy_version

unfoldable pub validate : Policy → Checked
validate policy = do
  refuse_if (not (supported_version policy.version)) (invalid "unsupported policy version")
  refuse_if
      (not (starts_with service_prefix policy.service_group)
        || policy.service_group == service_prefix)
      (invalid "service_group must use the Steward service-principal prefix")
  refuse_if (is_empty policy.repositories) (invalid "repositories must be non-empty")
  if policy.version == policy_version then validate_v5 policy else validate_v6 policy

-- A JSON document as `load` uses it: the text under `version`, if there is one, and the result of
-- `from_value`, an error as its message.
pub record Document : Type 0 where
  pub version : Option Text
  pub policy : Result Policy String

-- `opened` is what opening and parsing the file gives.
unfoldable pub load : Result Document String → Result Policy PolicyError
unfolding validate
load opened = do
  document ← map_err invalid opened
  refuse_if (not (is_some_and document.version supported_version))
      (invalid "unsupported policy version")
  policy ← map_err invalid document.policy
  validate policy
  ok policy
