-- ===== src/Policy/Vouched.antt =====
-- src/policy.rs: what `authorize` says of an identity and its actor, for both versions.
use github_oidc_exchange.Prelude.{
  ◌≡◌, refl, ◌⊎◌, inl, inr, List, true, false, Option, none, some, ◌==◌, nat_eq, list_eq, eq_iff,
  Bool-cases, Option-cases, Result-cases, arith, get, ok,
}
use github_oidc_exchange.Text.{Text}
use github_oidc_exchange.Contract.{
  policy_version, source_auth_policy_version, identity_contract_v2, source_auth_identity_contract,
}
use github_oidc_exchange.Github.{GitHubClaims}
use github_oidc_exchange.Policy.{Policy, Actor, Identity}
use github_oidc_exchange.Policy.Authorize.{
  verified_actor, configured_actor, optional_actor, actor_claims, actor_groups, subject_of,
  authorize_v5, authorize_v6, authorize, identity_contract,
}
use github_oidc_exchange.Policy.Unambiguous.{versions-differ'}

-- The identity says of its actor what the policy says, or says nothing of an actor.
abbrev pub IsVouched : Policy → GitHubClaims → Identity → Type 0
IsVouched policy claims id =
    ((policy.actors ≡ none) × (id.email ≡ none) × (id.email_verified ≡ none) × (id.groups ≡ none))
    ⊎ ((actors : List (Text × Actor)) × (actor : Actor) × (prefix : Text) × (policy.actors
          ≡ some actors)
        × (get actors claims.actor_id ≡ some actor)
        × (actor.verified ≡ true)
        × (policy.acting_group_prefix ≡ some prefix)
        × (id.email ≡ some actor.email)
        × (id.email_verified ≡ some true)
        × (id.groups ≡ some (actor_groups policy prefix actor)))

configured_actor-eq-some :
    (configured : Option (List (Text × Actor))) (actor_id : Text) {actor : Actor}
    → configured_actor configured actor_id ≡ some actor
    → (actors : List (Text × Actor)) × (configured ≡ some actors)
      × (get actors actor_id ≡ some actor)
      × (actor.verified ≡ true)
unfolding verified_actor
configured_actor-eq-some none actor_id h = cc
configured_actor-eq-some (some actors) actor_id h = (actors, refl, ground arith, ground arith)

pub authorize_v5-IsVouched :
    (policy : Policy) (claims : GitHubClaims) (id : Identity)
    → authorize_v5 policy claims ≡ ok id
    → IsVouched policy claims id
unfolding authorize_v5
authorize_v5-IsVouched policy claims id h =
    elim (Option-cases (configured_actor policy.actors claims.actor_id)) [
      | inl unknown ↦ absurd (ground arith)
      | inr (actor, known) ↦ elim (Option-cases policy.acting_group_prefix) [
        | inl missing ↦ absurd (ground arith)
        | inr (prefix, present) ↦
            let (actors, configured, found, verified) =
              configured_actor-eq-some policy.actors claims.actor_id known in
            inr (
              actors,
              actor,
              prefix,
              configured,
              found,
              verified,
              present,
              ground arith,
              ground arith,
              ground arith,
            )
      ]
    ]

optional_actor-cases :
    (configured : Option (List (Text × Actor))) (actor_id : Text) {actor : Option Actor}
    → optional_actor configured actor_id ≡ ok actor
    → ((configured ≡ none) × (actor ≡ none))
      ⊎ ((known : Actor) × (actor ≡ some known)
          × (configured_actor configured actor_id ≡ some known))
unfolding optional_actor
optional_actor-cases none actor_id h = inl (refl, cc)
optional_actor-cases (some actors) actor_id h =
    elim (Option-cases (verified_actor actors actor_id)) [
      | inl missing ↦ absurd (ground arith)
      | inr (known, e) ↦ inr (known, ground arith, e)
    ]

authorize_v6-actor :
    (policy : Policy) (claims : GitHubClaims) (id : Identity)
    → authorize_v6 policy claims ≡ ok id
    → (actor : Option Actor) × (optional_actor policy.actors claims.actor_id ≡ ok actor)
      × (actor_claims policy actor ≡ ok (id.email, id.email_verified, id.groups))
unfolding authorize_v6
authorize_v6-actor policy claims id h =
    elim (Result-cases (optional_actor policy.actors claims.actor_id)) [
      | inl (actor, admitted) ↦ elim (Result-cases (actor_claims policy actor)) [
        | inl (known, claimed) ↦ (actor, admitted, ground arith)
        | inr (e, refused) ↦ absurd (ground arith)
      ]
      | inr (e, refused) ↦ absurd (ground arith)
    ]

pub authorize_v6-IsVouched :
    (policy : Policy) (claims : GitHubClaims) (id : Identity)
    → authorize_v6 policy claims ≡ ok id
    → IsVouched policy claims id
unfolding actor_claims
authorize_v6-IsVouched policy claims id h =
    let (actor, admitted, claimed) = authorize_v6-actor policy claims id h in
    elim (optional_actor-cases policy.actors claims.actor_id admitted) [
      | inl (unconfigured, e) ↦ inl (unconfigured, ground arith, ground arith, ground arith)
      | inr (known, e, vouched) ↦ elim (Option-cases policy.acting_group_prefix) [
        | inl missing ↦ absurd (ground arith)
        | inr (prefix, present) ↦
            let (actors, configured, found, verified) =
              configured_actor-eq-some policy.actors claims.actor_id vouched in
            inr (
              actors,
              known,
              prefix,
              configured,
              found,
              verified,
              present,
              ground arith,
              ground arith,
              ground arith,
            )
      ]
    ]

pub authorize-by_version :
    (policy : Policy) (claims : GitHubClaims) (id : Identity)
    → authorize policy claims ≡ ok id
    → ((identity_contract policy ≡ identity_contract_v2) × (authorize_v5 policy claims ≡ ok id))
      ⊎ ((identity_contract policy ≡ source_auth_identity_contract)
          × (authorize_v6 policy claims ≡ ok id))
unfolding authorize identity_contract
authorize-by_version policy claims id h = elim (Bool-cases (policy.version == policy_version)) [
  | inl v5 ↦ inl (ground (arith, fifth policy.version v5), ground arith)
  | inr other ↦ elim (Bool-cases (policy.version == source_auth_policy_version)) [
    | inl v6 ↦ inr (ground arith, ground arith)
    | inr unknown ↦ absurd (ground arith)
  ]
]
  where
    fifth :
        (version : Text)
        → (version == policy_version) ≡ true
        → (version == source_auth_policy_version) ≡ false
    fifth version e = rw ((eq_iff version policy_version).0 e) versions-differ'

abbrev pub IsNamed : Text → GitHubClaims → Identity → Type 0
IsNamed contract claims id =
    (id.identity_contract ≡ contract)
    × (id.actor_id ≡ claims.actor_id)
    × (id.subject ≡ subject_of claims.actor_id)

pub authorize_v5-IsNamed :
    (policy : Policy) (claims : GitHubClaims) (id : Identity)
    → authorize_v5 policy claims ≡ ok id
    → IsNamed identity_contract_v2 claims id
unfolding authorize_v5
authorize_v5-IsNamed policy claims id h = ground arith

pub authorize_v6-IsNamed :
    (policy : Policy) (claims : GitHubClaims) (id : Identity)
    → authorize_v6 policy claims ≡ ok id
    → IsNamed source_auth_identity_contract claims id
unfolding authorize_v6
authorize_v6-IsNamed policy claims id h = ground arith
