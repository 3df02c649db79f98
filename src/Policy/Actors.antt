-- ===== src/Policy/Actors.antt =====
-- src/policy.rs: what `validate` establishes of the actors, and `authorize` of an identity.
use github_oidc_exchange.Prelude.{
  ◌≡◌, sym, ◌∙◌, inl, inr, List, [], ◌∷◌, Bool, true, false, Option, some, ◌==◌, nat_eq, list_eq,
  eq_iff, Bool-cases, Option-cases, arith, any, contains, get, ok,
}
use github_oidc_exchange.Text.{Text, ends_with}
use github_oidc_exchange.Contract.{policy_version}
use github_oidc_exchange.Github.{GitHubClaims}
use github_oidc_exchange.Policy.{Policy, Actor, Identity}
use github_oidc_exchange.Policy.Checks.{
  actor_refused, validate_actors_from, validate_actors, canonical_email,
}
use github_oidc_exchange.Policy.Validate.{validate_actors_v6, validate_v5, validate_v6, validate}
use github_oidc_exchange.Policy.Authorize.{subject_of, authorize, identity_contract}
use github_oidc_exchange.Policy.Vouched.{
  IsVouched, authorize_v5-IsVouched, authorize_v6-IsVouched, authorize-by_version,
  authorize_v5-IsNamed, authorize_v6-IsNamed,
}

module _ (domains : Option (List Text)) (bounded_ids : Bool) where
  validate_actors_from-cons :
      (seen : List Text) (k : Text) (c : Actor) (rest : List (Text × Actor))
      → validate_actors_from domains bounded_ids seen ((k, c) ∷ rest) ≡ ok tt
      → (actor_refused domains bounded_ids k c ≡ false)
        × (contains seen c.canonical_user_id ≡ false)
        × (validate_actors_from domains bounded_ids (c.canonical_user_id ∷ seen) rest ≡ ok tt)
  unfolding validate_actors_from
  validate_actors_from-cons seen k c rest h = ground arith

  unseen :
      (seen : List Text) (actors : List (Text × Actor)) (i : Text) {a : Actor}
      → validate_actors_from domains bounded_ids seen actors ≡ ok tt
      → get actors i ≡ some a
      → contains seen a.canonical_user_id ≡ false
  unfolding get contains
  unseen seen [] i h e = cc
  unseen seen ((k, c) ∷ rest) i {a} h e =
      let (_, fresh, later) = validate_actors_from-cons seen k c rest h in
      ground (arith, unseen (c.canonical_user_id ∷ seen) rest i {a = a} later)

  found-accepted :
      (seen : List Text) (actors : List (Text × Actor)) (i : Text) {a : Actor}
      → validate_actors_from domains bounded_ids seen actors ≡ ok tt
      → get actors i ≡ some a
      → actor_refused domains bounded_ids i a ≡ false
  unfolding get
  found-accepted seen [] i h e = cc
  found-accepted seen ((k, c) ∷ rest) i {a} h e =
      let (accepted, _, later) = validate_actors_from-cons seen k c rest h in
      ground (arith, eq_iff k i, found-accepted (c.canonical_user_id ∷ seen) rest i {a = a} later)

  canonical_injective :
      (seen : List Text) (actors : List (Text × Actor)) (i j : Text) {a b : Actor}
      → validate_actors_from domains bounded_ids seen actors ≡ ok tt
      → get actors i ≡ some a
      → get actors j ≡ some b
      → a.canonical_user_id ≡ b.canonical_user_id
      → i ≡ j
  unfolding get contains
  canonical_injective seen [] i j h e f same = cc
  canonical_injective seen ((k, c) ∷ rest) i j {a} {b} h e f same =
      let (_, _, later) = validate_actors_from-cons seen k c rest h in
      ground (
        arith,
        eq_iff k i,
        eq_iff k j,
        eq_iff c.canonical_user_id a.canonical_user_id,
        eq_iff c.canonical_user_id b.canonical_user_id,
        unseen (c.canonical_user_id ∷ seen) rest i {a = a} later,
        unseen (c.canonical_user_id ∷ seen) rest j {a = b} later,
        canonical_injective (c.canonical_user_id ∷ seen) rest i j {a = a} {b = b} later,
      )

-- The actors have passed `validate_actors`, against domains that are configured.
abbrev AreChecked : Policy → List (Text × Actor) → Type 0
AreChecked policy actors =
    (domains : List Text) × (bounded_ids : Bool) × (policy.allowed_email_domains ≡ some domains)
    × (validate_actors_from (some domains) bounded_ids [] actors ≡ ok tt)

validate_v5-actors :
    (policy : Policy) (actors : List (Text × Actor))
    → validate_v5 policy ≡ ok tt
    → policy.actors ≡ some actors
    → AreChecked policy actors
unfolding validate_v5 validate_actors
validate_v5-actors policy actors h e = elim (Option-cases policy.allowed_email_domains) [
  | inl missing ↦ absurd (ground arith)
  | inr (domains, present) ↦ (domains, false, present, ground arith)
]

validate_v6-actors :
    (policy : Policy) (actors : List (Text × Actor))
    → validate_v6 policy ≡ ok tt
    → policy.actors ≡ some actors
    → AreChecked policy actors
unfolding validate_v6 validate_actors_v6 validate_actors
validate_v6-actors policy actors h e = elim (Option-cases policy.allowed_email_domains) [
  | inl missing ↦ absurd (ground arith)
  | inr (domains, present) ↦ (domains, true, present, ground arith)
]

validate-actors :
    (policy : Policy) (actors : List (Text × Actor))
    → validate policy ≡ ok tt
    → policy.actors ≡ some actors
    → AreChecked policy actors
unfolding validate
validate-actors policy actors h e = elim (Bool-cases (policy.version == policy_version)) [
  | inl v5 ↦ validate_v5-actors policy actors (ground arith) e
  | inr v6 ↦ validate_v6-actors policy actors (ground arith) e
]

-- In a valid policy no two actors stand for one canonical user.
pub validate-canonical_injective :
    (policy : Policy) (actors : List (Text × Actor)) (i j : Text) (a b : Actor)
    → validate policy ≡ ok tt
    → policy.actors ≡ some actors
    → get actors i ≡ some a
    → get actors j ≡ some b
    → a.canonical_user_id ≡ b.canonical_user_id
    → i ≡ j
validate-canonical_injective policy actors i j a b h e f g same =
    let (domains, bounded_ids, _, checked) = validate-actors policy actors h e in
    canonical_injective (some domains) bounded_ids [] actors i j checked f g same

-- Whom `authorize` admits it names by the claims' actor ID, under the policy's contract, and with
-- the e-mail address and groups of its verified entry in `actors`, or with none of these if the
-- policy configures no actors.
pub authorize_sound :
    (policy : Policy) (claims : GitHubClaims) (id : Identity)
    → authorize policy claims ≡ ok id
    → (id.identity_contract ≡ identity_contract policy)
      × (id.actor_id ≡ claims.actor_id)
      × (id.subject ≡ subject_of claims.actor_id)
      × IsVouched policy claims id
authorize_sound policy claims id h = elim (authorize-by_version policy claims id h) [
  | inl (contract, h₅) ↦
      let (named, actor, subject) = authorize_v5-IsNamed policy claims id h₅ in
      (named ∙ sym contract, actor, subject, authorize_v5-IsVouched policy claims id h₅)
  | inr (contract, h₆) ↦
      let (named, actor, subject) = authorize_v6-IsNamed policy claims id h₆ in
      (named ∙ sym contract, actor, subject, authorize_v6-IsVouched policy claims id h₆)
]

-- In a valid policy an identity's e-mail address is canonical and in an allowed domain.
pub authorize-email :
    (policy : Policy) (claims : GitHubClaims) (id : Identity) (email : Text)
    → validate policy ≡ ok tt
    → authorize policy claims ≡ ok id
    → id.email ≡ some email
    → (domains : List Text) × (policy.allowed_email_domains ≡ some domains)
      × (canonical_email email ≡ true)
      × (any (λ domain. ends_with (b'@' ∷ domain) email) domains ≡ true)
unfolding actor_refused
authorize-email policy claims id email valid h e =
    let (_, _, _, vouched) = authorize_sound policy claims id h in
    elim vouched [
      | inl (_, nothing, _, _) ↦ absurd (ground arith)
      | inr (actors, actor, _, configured, found, _, _, same, _, _) ↦
          let (domains, bounded_ids, present, checked) =
            validate-actors policy actors valid configured in
          let accepted =
            found-accepted (some domains) bounded_ids [] actors claims.actor_id checked found in
          (domains, present, ground arith, ground arith)
    ]
