-- ===== src/Github/Checks.antt =====
-- src/github.rs: the checks of the claims of an assertion, and of their agreement.
use github_oidc_exchange.Prelude.{
  ℕ, List, [], ◌∷◌, ◌++◌, Bool, true, false, not, ◌&&◌, ◌||◌, Option, none, some, leb, ◌==◌, nat_eq,
  list_eq, if◌then◌else◌, any, all, is_empty,
}
use github_oidc_exchange.Text.{
  Text, text, len, bytes, strip_prefix, starts_with, ends_with, contains_text, contains_char, split,
  split_once, split_once_text, rsplit_once, is_ascii_digit, is_ascii_graphic, is_ascii_alphanumeric,
  is_lower_hex,
}
use github_oidc_exchange.Github.{Audience, GitHubClaims}

-- `Audience::is_exactly`.
unfoldable pub is_exactly : Audience → Text → Bool
is_exactly (Audience.one value) expected = value == expected
is_exactly (Audience.many (value ∷ [])) expected = value == expected
is_exactly (Audience.many _) expected = false
is_exactly Audience.missing expected = false

unfoldable pub numeric_identifier : Text → Bool
numeric_identifier value =
    not (is_empty value)
    && leb (len value) 20
    && all is_ascii_digit (bytes value)
    && not (value == text "0")
    && not (starts_with (text "0") value)

unfoldable pub bounded_ascii : Text → ℕ → Bool
bounded_ascii value maximum =
    not (is_empty value) && leb (len value) maximum && all is_ascii_graphic (bytes value)

-- `-`, `_` and `.`.
abbrev pub is_punctuation : ℕ → Bool
is_punctuation c = c == b'-' || c == b'_' || c == b'.'

unfoldable pub github_slug : Text → Bool
github_slug value =
    not (is_empty value)
    && leb (len value) 100
    && not (value == text ".")
    && not (value == text "..")
    && all (λ c. is_ascii_alphanumeric c || is_punctuation c) (bytes value)

slugs : List Text → Bool
slugs (owner ∷ repository ∷ []) =
    github_slug owner
    && github_slug repository
    && not (repository == text ".")
    && not (repository == text "..")
slugs _ = false

unfoldable pub github_repository : Text → Bool
unfolding slugs
github_repository value = slugs (split b'/' value)

unfoldable pub git_sha1 : Text → Bool
git_sha1 value = len value == 40 && all is_lower_hex (bytes value)

-- What is left after a prefix is not empty.
abbrev pub strips_to_more : Text → Text → Bool
strips_to_more prefix value = elim (strip_prefix prefix value) [
  | none ↦ false
  | some rest ↦ not (is_empty rest)
]

abbrev pub refused_ref_bytes : Text
refused_ref_bytes = text "~^:?*["

unfoldable pub valid_git_ref : Text → Bool
valid_git_ref value =
    bounded_ascii value 2048
    && any (λ prefix. strips_to_more prefix value)
        (text "refs/heads/" ∷ text "refs/tags/" ∷ text "refs/pull/" ∷ [])
    && not (ends_with (text "/") value)
    && not (ends_with (text ".") value)
    && not (contains_text (text "..") value)
    && not (contains_text (text "@{") value)
    && not (contains_text (text "//") value)
    && not (contains_char b'\\' value)
    && not (any (λ byte. contains_char byte refused_ref_bytes) (bytes value))
    && all
        (λ component.
          not (starts_with (text ".") component) && not (ends_with (text ".lock") component))
        (split b'/' value)

abbrev pub workflow_file : Text → Bool
workflow_file workflow =
    not (is_empty workflow)
    && leb (len workflow) 255
    && (ends_with (text ".yml") workflow || ends_with (text ".yaml") workflow)
    && all (λ c. is_ascii_alphanumeric c || is_punctuation c) (bytes workflow)

abbrev pub expects : Option Text → Text → Bool
expects none repository = true
expects (some expected) repository = expected == repository

-- The workflow's file and Git reference, after the repository.
abbrev pub file_and_ref : Text → Option (Text × Text) → Bool
file_and_ref resolved_sha none = false
file_and_ref resolved_sha (some (workflow, git_ref)) =
    workflow_file workflow && (valid_git_ref git_ref || git_sha1 git_ref && git_ref == resolved_sha)

abbrev pub repository_and_rest : Option Text → Text → Option (Text × Text) → Bool
repository_and_rest expected resolved_sha none = false
repository_and_rest expected resolved_sha (some (repository, workflow_and_ref)) =
    if not (github_repository repository) || not (expects expected repository)
    then false
    else file_and_ref resolved_sha (rsplit_once b'@' workflow_and_ref)

unfoldable pub workflow_reference : Text → Option Text → Text → Bool
workflow_reference value expected_repository resolved_sha =
    if not (bounded_ascii value 2048)
    then false
    else repository_and_rest expected_repository resolved_sha
        (split_once_text (text "/.github/workflows/") value)

abbrev or_else {ℓ} : {A : Type ℓ} → Option A → Option A → Option A
or_else none o = o
or_else (some a) o = some a

-- `format!("repo:{}:", ..)`, and the form with the numeric identifiers.
abbrev pub standard_prefix : GitHubClaims → Text
standard_prefix claims = text "repo:" ++ (claims.repository ++ text ":")

abbrev pub numeric_prefix : GitHubClaims → Text → Text → Text
numeric_prefix claims owner repository =
    text "repo:"
    ++ (owner
        ++ (text "@"
            ++ (claims.repository_owner_id
                ++ (text "/" ++ (repository ++ (text "@" ++ (claims.repository_id ++ text ":")))))))

-- What `sub` says after the repository.
unfoldable pub subject_suffix : GitHubClaims → Text → Text → Option Text
subject_suffix claims owner repository =
    or_else (strip_prefix (standard_prefix claims) claims.sub)
      (strip_prefix (numeric_prefix claims owner repository) claims.sub)

abbrev pub ref_agrees : Option Text → Text → Bool
ref_agrees none git_ref = true
ref_agrees (some subject_ref) git_ref = subject_ref == git_ref

unfoldable pub suffix_consistent : GitHubClaims → Option Text → Bool
suffix_consistent claims none = false
suffix_consistent claims (some suffix) =
    bounded_ascii suffix 1024
    && ref_agrees (strip_prefix (text "ref:") suffix) claims.git_ref
    && (not (suffix == text "pull_request")
        || starts_with (text "refs/pull/") claims.git_ref
          && ends_with (text "/merge") claims.git_ref)
    && workflow_reference claims.workflow_ref (some claims.repository) claims.workflow_sha
    && workflow_reference claims.job_workflow_ref none claims.job_workflow_sha

unfoldable pub provenance_consistent : GitHubClaims → Bool
provenance_consistent claims = elim (split_once b'/' claims.repository) [
  | none ↦ false
  | some (owner, repository) ↦ suffix_consistent claims (subject_suffix claims owner repository)
]
