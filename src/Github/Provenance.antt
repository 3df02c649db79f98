-- ===== src/Github/Provenance.antt =====
-- src/github.rs: where the claims of an assertion say that it came from.
use github_oidc_exchange.Prelude.{
  ◌≡◌, ◌≢◌, ap, sym, subst, ◌∙◌, ◌&&◌, ◌||◌, ◌⊎◌, inl, inr, ◌++◌, true, Option, none, some, nat_eq,
  list_eq, eq_iff, ◌==◌, Bool-cases, Option-cases, arith,
}
use github_oidc_exchange.Text.{
  Text, text, strip_prefix, starts_with, ends_with, split_once, split_once_text, rsplit_once,
}
use github_oidc_exchange.Text.Splits.{
  join, strip_prefix-eq_some, split_once-eq_some, split_once_text-eq_some, rsplit_once-eq_some,
}
use github_oidc_exchange.Github.{GitHubClaims}
use github_oidc_exchange.Github.Checks.{
  git_sha1, valid_git_ref, workflow_file, workflow_reference, standard_prefix, numeric_prefix,
  subject_suffix, suffix_consistent, provenance_consistent, file_and_ref, expects, ref_agrees,
}

-- `value` is a workflow's file in a repository, at a Git reference or at `resolved_sha` itself.
abbrev pub WorkflowOf : Text → Text → Text → Type 0
WorkflowOf value repository resolved_sha =
    (workflow : Text) × (git_ref : Text) × (value
      ≡ join (text "/.github/workflows/") (repository, join (text "@") (workflow, git_ref)))
    × (workflow_file workflow ≡ true)
    × ((valid_git_ref git_ref ≡ true) ⊎ ((git_ref ≡ resolved_sha) × (git_sha1 git_ref ≡ true)))

-- A subject that names the claims' repository, in one of the two forms, and agrees with the Git reference.
abbrev pub Subject : GitHubClaims → Type 0
Subject claims =
    (owner : Text) × (repository : Text) × (suffix : Text) × (claims.repository
      ≡ join (text "/") (owner, repository))
    × ((claims.sub ≡ standard_prefix claims ++ suffix)
        ⊎ (claims.sub ≡ numeric_prefix claims owner repository ++ suffix))
    × ((strip_prefix (text "ref:") suffix ≡ none) ⊎ (suffix ≡ text "ref:" ++ claims.git_ref))
    × ((suffix ≢ text "pull_request")
        ⊎ ((starts_with (text "refs/pull/") claims.git_ref ≡ true)
            × (ends_with (text "/merge") claims.git_ref ≡ true)))

abbrev pub Provenance : GitHubClaims → Type 0
Provenance claims =
    Subject claims
    × WorkflowOf claims.workflow_ref claims.repository claims.workflow_sha
    × ((reusable : Text) × WorkflowOf claims.job_workflow_ref reusable claims.job_workflow_sha)

file_and_ref-inversion :
    (repository resolved_sha value rest : Text)
    → value ≡ join (text "/.github/workflows/") (repository, rest)
    → file_and_ref resolved_sha (rsplit_once b'@' rest) ≡ true
    → WorkflowOf value repository resolved_sha
file_and_ref-inversion repository resolved_sha value rest whole h =
    elim (Option-cases (rsplit_once b'@' rest)) [
      | inl missing ↦ absurd (ground arith)
      | inr ((workflow, git_ref), found) ↦
          let parts = rsplit_once-eq_some b'@' rest {parts = (workflow, git_ref)} found in
          (
            workflow,
            git_ref,
            whole ∙ ap (λ r. join (text "/.github/workflows/") (repository, r)) parts,
            ground arith,
            at_ref git_ref (ground arith),
          )
    ]
  where
    at_ref :
        (git_ref : Text)
        → (valid_git_ref git_ref || git_sha1 git_ref && git_ref == resolved_sha) ≡ true
        → (valid_git_ref git_ref ≡ true) ⊎ ((git_ref ≡ resolved_sha) × (git_sha1 git_ref ≡ true))
    at_ref git_ref h = elim (Bool-cases (valid_git_ref git_ref)) [
      | inl valid ↦ inl valid
      | inr other ↦ inr ((eq_iff git_ref resolved_sha).0 (ground arith), ground arith)
    ]

workflow_reference-inversion :
    (value : Text) (expected : Option Text) (resolved_sha : Text)
    → workflow_reference value expected resolved_sha ≡ true
    → (repository : Text) × (expects expected repository ≡ true)
      × WorkflowOf value repository resolved_sha
unfolding workflow_reference
workflow_reference-inversion value expected resolved_sha h =
    elim (Option-cases (split_once_text (text "/.github/workflows/") value)) [
      | inl missing ↦ absurd (ground arith)
      | inr ((repository, rest), found) ↦ (
        repository,
        ground arith,
        file_and_ref-inversion repository resolved_sha value rest
            (split_once_text-eq_some (text "/.github/workflows/") value {parts = (repository, rest)}
              found)
            (ground arith),
      )
    ]

module _ (claims : GitHubClaims) where
  subject_suffix-inversion :
      (owner repository suffix : Text)
      → subject_suffix claims owner repository ≡ some suffix
      → (claims.sub ≡ standard_prefix claims ++ suffix)
        ⊎ (claims.sub ≡ numeric_prefix claims owner repository ++ suffix)
  unfolding subject_suffix
  subject_suffix-inversion owner repository suffix =
      elim (Option-cases (strip_prefix (standard_prefix claims) claims.sub)) [
        | inr (rest, found) ↦ rw found (λ e.
            inl (
              strip_prefix-eq_some (standard_prefix claims) claims.sub {rest = suffix} (found ∙ e)))
        | inl missing ↦ rw missing (λ e. inr (
            strip_prefix-eq_some (numeric_prefix claims owner repository) claims.sub {rest = suffix}
              e))
      ]

  ref_agrees-inversion :
      (suffix : Text)
      → ref_agrees (strip_prefix (text "ref:") suffix) claims.git_ref ≡ true
      → (strip_prefix (text "ref:") suffix ≡ none) ⊎ (suffix ≡ text "ref:" ++ claims.git_ref)
  ref_agrees-inversion suffix h = elim (Option-cases (strip_prefix (text "ref:") suffix)) [
    | inl missing ↦ inl missing
    | inr (ref, found) ↦ inr (
        strip_prefix-eq_some (text "ref:") suffix {rest = ref} found
        ∙ ap (λ r. text "ref:" ++ r) ((eq_iff ref claims.git_ref).0 (ground arith)))
  ]

  suffix_consistent-inversion :
      (owner repository suffix : Text)
      → claims.repository ≡ join (text "/") (owner, repository)
      → subject_suffix claims owner repository ≡ some suffix
      → suffix_consistent claims (some suffix) ≡ true
      → Provenance claims
  unfolding suffix_consistent
  suffix_consistent-inversion owner repository suffix named given h =
      let (caller, same, called) =
        workflow_reference-inversion claims.workflow_ref (some claims.repository)
          claims.workflow_sha (ground arith) in
      let (reusable, _, reused) =
        workflow_reference-inversion claims.job_workflow_ref none claims.job_workflow_sha
          (ground arith) in
      (
        (
          owner,
          repository,
          suffix,
          named,
          subject_suffix-inversion owner repository suffix given,
          ref_agrees-inversion suffix (ground arith),
          elim (Bool-cases (suffix == text "pull_request")) [
            | inl pull ↦ inr (ground arith, ground arith)
            | inr other ↦ inl (λ e. let hit = (eq_iff suffix (text "pull_request")).1 e in cc)
          ],
        ),
        subst (λ r. WorkflowOf claims.workflow_ref r claims.workflow_sha)
            (sym ((eq_iff claims.repository caller).0 same)) called,
        (reusable, reused),
      )

  pub provenance_consistent-Provenance : provenance_consistent claims ≡ true → Provenance claims
  unfolding provenance_consistent suffix_consistent
  provenance_consistent-Provenance = elim (Option-cases (split_once b'/' claims.repository)) [
    | inl missing ↦ rw (provenance_consistent, missing) (λ h. cc)
    | inr ((owner, repository), found) ↦
        elim (Option-cases (subject_suffix claims owner repository)) [
          | inl other ↦ rw (provenance_consistent, found, other) (λ h. absurd (nowhere h))
          | inr (suffix, given) ↦
              rw (provenance_consistent, found, given)
                (suffix_consistent-inversion owner repository suffix
                  (split_once-eq_some b'/' claims.repository {parts = (owner, repository)} found)
                  given)
        ]
  ]
    where
      nowhere : suffix_consistent claims none ≡ true → ⊥
      nowhere e = cc
