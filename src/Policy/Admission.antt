-- ===== src/Policy/Admission.antt =====
-- src/policy.rs: for whom `authorize` succeeds, and with which identity.
use github_oidc_exchange.Prelude.{
  ◌≡◌, ◌≢◌, Result-cases, eq-ok_of_is_ok, refl, sym, ◌∙◌, ◌⊎◌, ◌↔◌, inl, inr, List, Bool, true,
  Option, none, some, nat_eq, list_eq, eq_iff, Option-cases, arith, any, filter, only, get, ok,
  filter-eq_of_only, any-of_filter, only-filter,
}
use github_oidc_exchange.Text.{Text}
use github_oidc_exchange.Contract.{source_auth_policy_version}
use github_oidc_exchange.Github.{GitHubClaims}
use github_oidc_exchange.Policy.{Policy, Actor, Identity, RepositoryPolicy}
use github_oidc_exchange.Policy.Checks.{numeric_identifier}
use github_oidc_exchange.Policy.Validate.{validate_actors_v6, validate_v6, validate}
use github_oidc_exchange.Policy.Authorize.{
  rule_matches_v6, verified_actor, optional_actor, actor_claims, authorize_v6, authorize,
}
use github_oidc_exchange.Policy.Unambiguous.{
  other_version, validate-validate_v6, validate-matching-le_one,
}

-- No actors are configured, or the claims' actor is one of them and verified.
abbrev pub ActorAdmitted : Policy → GitHubClaims → Type 0
ActorAdmitted policy claims =
    (policy.actors ≡ none)
    ⊎ ((actors : List (Text × Actor)) × (actor : Actor) × (policy.actors ≡ some actors)
        × (get actors claims.actor_id ≡ some actor)
        × (actor.verified ≡ true))

authorize-authorize_v6 :
    (policy : Policy) (claims : GitHubClaims)
    → policy.version ≡ source_auth_policy_version
    → authorize policy claims ≡ authorize_v6 policy claims
unfolding authorize
authorize-authorize_v6 policy claims v =
    ground (arith, other_version policy.version v, eq_iff policy.version source_auth_policy_version)

verified_actor-eq-some :
    (actors : List (Text × Actor)) (actor_id : Text) (actor : Actor)
    → verified_actor actors actor_id ≡ some actor
    → (get actors actor_id ≡ some actor) × (actor.verified ≡ true)
unfolding verified_actor
verified_actor-eq-some actors actor_id actor h = ground arith

optional_actor-admits :
    (policy : Policy) (claims : GitHubClaims) (actors : Option (List (Text × Actor)))
    {actor : Option Actor}
    → policy.actors ≡ actors
    → optional_actor actors claims.actor_id ≡ ok actor
    → ActorAdmitted policy claims
unfolding optional_actor
optional_actor-admits policy claims none e h = inl e
optional_actor-admits policy claims (some actors) e h =
    elim (Option-cases (verified_actor actors claims.actor_id)) [
      | inl missing ↦ cc (missing)
      | inr (actor, found) ↦
          let (known, verified) = verified_actor-eq-some actors claims.actor_id actor found in
          inr (actors, actor, e, known, verified)
    ]

authorize_v6-parts :
    (policy : Policy) (claims : GitHubClaims) {id : Identity}
    → authorize_v6 policy claims ≡ ok id
    → (rule : RepositoryPolicy) × (actor : Option Actor) × (numeric_identifier claims.actor_id
        ≡ true)
      × (only (filter (rule_matches_v6 claims) policy.repositories) ≡ some rule)
      × (optional_actor policy.actors claims.actor_id ≡ ok actor)
unfolding authorize_v6
authorize_v6-parts policy claims h =
    elim (Option-cases (only (filter (rule_matches_v6 claims) policy.repositories))) [
      | inl unmatched ↦ absurd (ground arith)
      | inr (rule, matched) ↦ elim (Result-cases (optional_actor policy.actors claims.actor_id)) [
        | inl (actor, admitted) ↦ (rule, actor, ground arith, matched, admitted)
        | inr (e, refused) ↦ absurd (ground arith)
      ]
    ]

actor_claims-total :
    (policy : Policy) (actor : Option Actor)
    → (actor ≢ none → policy.acting_group_prefix ≢ none)
    → (known : Option Text × Option Bool × Option (List Text)) × (actor_claims policy actor
        ≡ ok known)
unfolding actor_claims
actor_claims-total policy none h = ((none, none, none), refl)
actor_claims-total policy (some actor) h = elim (Option-cases policy.acting_group_prefix) [
  | inl e ↦ absurd (h (λ p. cc) e)
  | inr (prefix, e) ↦ eq-ok_of_is_ok _ (ground arith)
]

-- A valid policy with actors has the prefix of their groups.
validate_v6-prefix :
    (policy : Policy) (actors : List (Text × Actor))
    → validate_v6 policy ≡ ok tt
    → policy.actors ≡ some actors
    → policy.acting_group_prefix ≢ none
unfolding validate_v6 validate_actors_v6
validate_v6-prefix policy actors h e = ground arith

optional_actor_of_admitted :
    (policy : Policy) (claims : GitHubClaims)
    → validate_v6 policy ≡ ok tt
    → ActorAdmitted policy claims
    → (actor : Option Actor) × (optional_actor policy.actors claims.actor_id ≡ ok actor)
      × (actor ≢ none → policy.acting_group_prefix ≢ none)
unfolding optional_actor verified_actor
optional_actor_of_admitted policy claims h (inl e) = (none, rw e, λ n. absurd (n refl))
optional_actor_of_admitted policy claims h (inr (actors, actor, e, known, verified)) =
    (some actor, ground arith, λ _. validate_v6-prefix policy actors h e)

authorize_v6-of_parts :
    (policy : Policy) (claims : GitHubClaims) {rule : RepositoryPolicy} {actor : Option Actor}
    {known : Option Text × Option Bool × Option (List Text)}
    → numeric_identifier claims.actor_id ≡ true
    → only (filter (rule_matches_v6 claims) policy.repositories) ≡ some rule
    → optional_actor policy.actors claims.actor_id ≡ ok actor
    → actor_claims policy actor ≡ ok known
    → (id : Identity) × (authorize_v6 policy claims ≡ ok id)
unfolding authorize_v6
authorize_v6-of_parts policy claims numeric matched found claimed = eq-ok_of_is_ok _ (ground arith)

-- Under a valid policy of version 6, `authorize` succeeds exactly for a numeric actor ID, a matching
-- rule, and, if actors are configured, a verified one.
pub authorize_iff :
    (policy : Policy) (claims : GitHubClaims)
    → policy.version ≡ source_auth_policy_version
    → validate policy ≡ ok tt
    → ((id : Identity) × (authorize policy claims ≡ ok id)) ↔ (
        (numeric_identifier claims.actor_id ≡ true)
        × (any (rule_matches_v6 claims) policy.repositories ≡ true)
        × ActorAdmitted policy claims)
authorize_iff policy claims v valid = (forth, back)
  where
    forth :
        ((id : Identity) × (authorize policy claims ≡ ok id))
        → (numeric_identifier claims.actor_id ≡ true)
          × (any (rule_matches_v6 claims) policy.repositories ≡ true)
          × ActorAdmitted policy claims
    forth (id, h) =
        let (rule, actor, numeric, matched, admitted) =
          authorize_v6-parts policy claims (sym (authorize-authorize_v6 policy claims v) ∙ h) in
        (
          numeric,
          any-of_filter _ policy.repositories
              (filter-eq_of_only (rule_matches_v6 claims) _ matched),
          optional_actor-admits policy claims policy.actors refl admitted,
        )

    back :
        (numeric_identifier claims.actor_id ≡ true)
          × (any (rule_matches_v6 claims) policy.repositories ≡ true)
          × ActorAdmitted policy claims
        → (id : Identity) × (authorize policy claims ≡ ok id)
    back (numeric, hit, admitted) =
        let (rule, matched) =
          only-filter (rule_matches_v6 claims) policy.repositories
            (validate-matching-le_one policy claims v valid) hit in
        let (actor, found, prefixed) =
          optional_actor_of_admitted policy claims (validate-validate_v6 policy v valid) admitted in
        let (known, claimed) = actor_claims-total policy actor prefixed in
        let (id, e) = authorize_v6-of_parts policy claims numeric matched found claimed in
        (id, authorize-authorize_v6 policy claims v ∙ e)
