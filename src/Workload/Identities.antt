-- ===== src/Workload/Identities.antt =====
-- src/workload.rs: `WorkloadPolicy::load`, `validate` and `authorize`, and the checks of values.
use github_oidc_exchange.Prelude.{
  ℕ, List, [], ◌∷◌, ◌++◌, Bool, true, false, not, ◌&&◌, ◌||◌, Option, none, some, String, Result,
  ok, ◌>>=◌, ◌>>◌, refuse_if, ok_or, map_err, leb, ◌==◌, nat_eq, list_eq, length, any, all, filter,
  only, contains, collect_set, is_empty,
}
use github_oidc_exchange.Contract.{workload_policy_version}
use github_oidc_exchange.Text.{
  Text, text, len, bytes, strip_prefix, split, split_once, contains_char, is_lower_hex,
  is_whitespace, to_ascii_lowercase,
}
use github_oidc_exchange.Sort.{sort}
use github_oidc_exchange.Workload.{
  WorkloadPolicy, WorkloadIdentity, WorkloadTaskBinding, WorkloadPolicyError, invalid, unauthorized,
  service_account_prefix, subject_prefix,
}

abbrev pub Checked : Type 0
Checked = Result (Unit {0}) WorkloadPolicyError

unfoldable pub bounded_non_whitespace : Text → ℕ → Bool
bounded_non_whitespace value maximum =
    not (is_empty value) && leb (len value) maximum && not (any is_whitespace value)

canonical_parts : Text → Option (Text × Text) → Bool
canonical_parts value none = false
canonical_parts value (some (local, domain)) =
    not (is_empty local)
    && contains_char b'.' domain
    && not (any is_whitespace value)
    && value == to_ascii_lowercase value

unfoldable pub canonical_email : Text → Bool
unfolding canonical_parts
canonical_email value = canonical_parts value (split_once b'@' value)

unfoldable pub canonical_user_id : Text → Bool
canonical_user_id value = elim (strip_prefix (text "usr_") value) [
  | none ↦ false
  | some suffix ↦ len suffix == 32 && all is_lower_hex (bytes suffix)
]

-- `(segments.next(), segments.next(), segments.next())` against `(Some(_), Some(_), None)`.
unfoldable pub two_segments : List Text → Option (Text × Text)
two_segments (namespace ∷ service_account ∷ []) = some (namespace, service_account)
two_segments _ = none

-- The variables of the loop of `validate`.
pub record Seen : Type 0 where
  pub usernames : List Text
  pub subjects : List Text

unfoldable pub name_refused : Seen → WorkloadIdentity → Text → Text → Bool
name_refused seen identity namespace service_account =
    is_empty namespace
    || is_empty service_account
    || contains_char b'*' identity.username
    || not (identity.subject == subject_prefix ++ (namespace ++ (b':' ∷ service_account)))
    || contains seen.usernames identity.username
    || contains seen.subjects identity.subject

abbrev no_task : Option WorkloadTaskBinding → Bool
no_task none = true
no_task (some task) = false

unfoldable pub roles_refused : WorkloadIdentity → Bool
roles_refused identity =
    is_empty identity.roles && no_task identity.task
    || not (length (collect_set identity.roles) == length identity.roles)
    || any (λ role. is_empty role || any is_whitespace role || contains_char b'*' role)
        identity.roles

unfoldable pub task_refused : Option WorkloadTaskBinding → Bool
task_refused none = false
task_refused (some task) =
    not (bounded_non_whitespace task.service 128)
    || not (canonical_user_id task.owner_canonical_user_id)
    || not (canonical_email task.owner_email)

abbrev pub see : Seen → WorkloadIdentity → Seen
see seen identity = record {
  usernames = identity.username ∷ seen.usernames;
  subjects = identity.subject ∷ seen.subjects;
}

unfoldable pub validate_identities : Seen → List WorkloadIdentity → Checked
validate_identities seen [] = ok tt
validate_identities seen (identity ∷ rest) = do
  suffix ←
      ok_or (strip_prefix service_account_prefix identity.username)
        (invalid "usernames must be exact Kubernetes service-account usernames")
  names ←
      ok_or (two_segments (split b':' suffix))
        (invalid "usernames must contain one namespace and service-account name")
  refuse_if (name_refused seen identity names.0 names.1)
      (invalid "workload usernames and subjects must be exact, unique, and corresponding")
  refuse_if (roles_refused identity)
      (invalid "roles must contain unique non-empty exact values for non-task identities")
  refuse_if (task_refused identity.task)
      (invalid "task bindings require an exact service, canonical user ID, and owner email")
  validate_identities (see seen identity) rest

abbrev pub nothing_seen : Seen
nothing_seen = record { usernames = []; subjects = [] }

unfoldable pub validate : WorkloadPolicy → Checked
unfolding validate_identities
validate policy = do
  refuse_if (not (policy.version == workload_policy_version) || is_empty policy.identities)
      (invalid "unsupported or empty workload policy")
  validate_identities nothing_seen policy.identities

-- `opened` is what opening and parsing the file gives, an error as its message.
unfoldable pub load : Result WorkloadPolicy String → Result WorkloadPolicy WorkloadPolicyError
load opened = do policy ← map_err invalid opened; validate policy; ok policy

unfoldable pub authorize : WorkloadPolicy → Text → Result WorkloadIdentity WorkloadPolicyError
authorize policy username = do
  identity ←
      ok_or (only (filter (λ identity. identity.username == username) policy.identities))
        unauthorized
  ok (record identity { roles = sort identity.roles })
