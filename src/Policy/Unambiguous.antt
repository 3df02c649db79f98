-- ===== src/Policy/Unambiguous.antt =====
-- src/policy.rs: what the scan of `validate_v6` for ambiguous rules is for.
use github_oidc_exchange.Prelude.{
  ◌≤◌, ◌≡◌, refl, ◌⊎◌, inl, inr, List, [], ◌∷◌, true, false, ◌==◌, nat_eq, list_eq, pair_eq, eq_iff,
  Bool-cases, arith, any, contains, filter, length, ok, list_beq,
}
use github_oidc_exchange.Text.{Text}
use github_oidc_exchange.Contract.{policy_version, source_auth_policy_version}
use github_oidc_exchange.Github.{GitHubClaims}
use github_oidc_exchange.Policy.{Policy, RepositoryPolicy}
use github_oidc_exchange.Policy.Validate.{
  Scopes, ambiguous, note_rule, validate_repositories_v6, no_scopes, validate_v6, validate,
}
use github_oidc_exchange.Policy.Authorize.{rule_matches_v6}

-- A rule above covers the owner and repository, as a whole owner or as one repository.
abbrev Covered : Text → Text → Scopes → Type 0
Covered owner repository scopes =
    (contains scopes.owner_scopes owner ≡ true)
    ⊎ (contains scopes.repository_ids (owner, repository) ≡ true)

any-owner_of_contains :
    (ids : List (Text × Text)) (owner repository : Text)
    → contains ids (owner, repository) ≡ true
    → any (λ configured. configured.0 == owner) ids ≡ true
unfolding contains any
any-owner_of_contains [] owner repository h = h
any-owner_of_contains ((o, r) ∷ ids) owner repository h =
    ground (arith, any-owner_of_contains ids owner repository)

module _ (claims : GitHubClaims) where
  abbrev owner : Text
  owner = claims.repository_owner_id

  abbrev repo : Text
  repo = claims.repository_id

  note_rule-Covered :
      (scopes : Scopes) (rule : RepositoryPolicy)
      → Covered owner repo scopes
      → Covered owner repo (note_rule scopes rule)
  unfolding note_rule contains
  note_rule-Covered scopes rule h = ground arith

  matching-Covered :
      (scopes : Scopes) (rule : RepositoryPolicy)
      → rule_matches_v6 claims rule ≡ true
      → Covered owner repo (note_rule scopes rule)
  unfolding rule_matches_v6 note_rule contains
  matching-Covered scopes rule h =
      ground (arith, eq_iff rule.owner_id owner, eq_iff rule.repository_id repo)

  matching-ambiguous :
      (scopes : Scopes) (rule : RepositoryPolicy)
      → Covered owner repo scopes
      → rule_matches_v6 claims rule ≡ true
      → ambiguous scopes rule ≡ true
  unfolding rule_matches_v6 ambiguous
  matching-ambiguous scopes rule c h = ground (
    arith,
    eq_iff rule.owner_id owner,
    eq_iff rule.repository_id repo,
    any-owner_of_contains scopes.repository_ids owner repo,
  )

validate_repositories_v6-cons :
    (scopes : Scopes) (rule : RepositoryPolicy) (rest : List RepositoryPolicy)
    → validate_repositories_v6 scopes (rule ∷ rest) ≡ ok tt
    → (ambiguous scopes rule ≡ false)
      × (validate_repositories_v6 (note_rule scopes rule) rest ≡ ok tt)
unfolding validate_repositories_v6
validate_repositories_v6-cons scopes rule rest h = ground arith

-- After a rule that covers the claims no later rule matches them.
Covered-unmatched :
    (claims : GitHubClaims) (scopes : Scopes) (rules : List RepositoryPolicy)
    → Covered claims.repository_owner_id claims.repository_id scopes
    → validate_repositories_v6 scopes rules ≡ ok tt
    → filter (rule_matches_v6 claims) rules ≡ []
unfolding filter
Covered-unmatched claims scopes [] c h = refl
Covered-unmatched claims scopes (rule ∷ rest) c h =
    let (clear, later) = validate_repositories_v6-cons scopes rule rest h in
    ground (
      arith,
      matching-ambiguous claims scopes rule c,
      Covered-unmatched claims (note_rule scopes rule) rest (note_rule-Covered claims scopes rule c)
          later,
    )

length-matching-le_one :
    (claims : GitHubClaims) (scopes : Scopes) (rules : List RepositoryPolicy)
    → validate_repositories_v6 scopes rules ≡ ok tt
    → length (filter (rule_matches_v6 claims) rules) ≤ 1
unfolding filter
length-matching-le_one claims scopes [] h = omega arith
length-matching-le_one claims scopes (rule ∷ rest) h =
    let (clear, later) = validate_repositories_v6-cons scopes rule rest h in
    elim (Bool-cases (rule_matches_v6 claims rule)) [
      | inl hit ↦ rw hit (
          rw
            (Covered-unmatched claims (note_rule scopes rule) rest
              (matching-Covered claims scopes rule hit) later)
            (omega arith))
      | inr miss ↦ rw miss (length-matching-le_one claims (note_rule scopes rule) rest later)
    ]

versions-differ : (source_auth_policy_version == policy_version) ≡ false
unfolding list_beq
versions-differ = refl

pub versions-differ' : (policy_version == source_auth_policy_version) ≡ false
unfolding list_beq
versions-differ' = refl

pub other_version :
    (version : Text) → version ≡ source_auth_policy_version → (version == policy_version) ≡ false
other_version version v = rw v versions-differ

pub validate-validate_v6 :
    (policy : Policy)
    → policy.version ≡ source_auth_policy_version
    → validate policy ≡ ok tt
    → validate_v6 policy ≡ ok tt
unfolding validate
validate-validate_v6 policy v h = ground (arith, other_version policy.version v)

validate_v6-repositories :
    (policy : Policy)
    → validate_v6 policy ≡ ok tt
    → validate_repositories_v6 no_scopes policy.repositories ≡ ok tt
unfolding validate_v6
validate_v6-repositories policy h = ground arith

-- In a valid policy of version 6 at most one rule matches any claims.
pub validate-matching-le_one :
    (policy : Policy) (claims : GitHubClaims)
    → policy.version ≡ source_auth_policy_version
    → validate policy ≡ ok tt
    → length (filter (rule_matches_v6 claims) policy.repositories) ≤ 1
validate-matching-le_one policy claims v h =
    length-matching-le_one claims no_scopes policy.repositories
      (validate_v6-repositories policy (validate-validate_v6 policy v h))
