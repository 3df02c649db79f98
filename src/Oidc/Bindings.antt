-- ===== src/Oidc/Bindings.antt =====
-- src/oidc.rs: what `OidcPolicy::validate` is for: no two bindings of a provider match one claim set.
use mathlib.Core.Path.{subst₂}
use github_oidc_exchange.Prelude.{
  ◌≡◌, refl, sym, subst, ◌∙◌, inl, inr, List, [], ◌∷◌, ◌++◌, Bool, true, false, not, ◌&&◌, Option,
  some, ◌==◌, nat_eq, list_eq, eq_iff, Bool-cases, Option-cases, Result-cases, arith, any, all, get,
  filter, only, find, ok, In,
}
use github_oidc_exchange.Text.{Text}
use github_oidc_exchange.Oidc.{OidcPolicy, OidcProviderPolicy, OidcBinding, OidcClaims, Url}
use github_oidc_exchange.Oidc.Policy.{
  some_and, as_str, claim_bindings_overlap, binding_refused, validate_bindings, validate_providers,
  validate, binding_matches, authorize,
}

module _ (claims : OidcClaims) where
  -- The claim set has the entry, as a text.
  abbrev says : Text × Text → Bool
  says entry = some_and (as_str (get claims.values entry.0)) (λ actual. actual == entry.1)

  says_unique : (name a b : Text) → says (name, a) ≡ true → says (name, b) ≡ true → (a == b) ≡ true
  says_unique name a b p q = elim (Option-cases (as_str (get claims.values name))) [
    | inl missing ↦ absurd (ground arith)
    | inr (actual, found) ↦ ground (arith, eq_iff actual a, eq_iff actual b, eq_iff a b)
  ]

  all-get :
      (entries : List (Text × Text)) (name : Text) {value : Text}
      → all says entries ≡ true
      → get entries name ≡ some value
      → says (name, value) ≡ true
  unfolding all get
  all-get [] name h p = cc
  all-get ((j, w) ∷ entries) name {value} h p = elim (Bool-cases (j == name)) [
    | inl same ↦
        subst₂ (λ n v. says (n, v) ≡ true) ((eq_iff j name).0 same) (same_value (ground arith))
          (and_left (all says entries) (ground arith))
    | inr other ↦ all-get entries name (ground arith) (ground arith)
  ]
    where
      same_value : some w ≡ some value → w ≡ value
      same_value q = cc

      and_left : (b : Bool) → (says (j, w) && b) ≡ true → says (j, w) ≡ true
      and_left b q = ground arith

  agreeing :
      (left right : List (Text × Text))
      → all says left ≡ true
      → all says right ≡ true
      → any (λ entry. some_and (get right entry.0) (λ value. not (value == entry.1))) left ≡ false
  unfolding any all
  agreeing [] right h k = refl
  agreeing ((name, value) ∷ left) right h k = elim (Option-cases (get right name)) [
    | inl missing ↦ rw missing (agreeing left right (ground arith) k)
    | inr (other, found) ↦
        rw (found, says_unique name other value (all-get right name k found) (ground arith))
          (agreeing left right (ground arith) k)
  ]

  matching-overlap :
      (left right : OidcBinding)
      → binding_matches claims left ≡ true
      → binding_matches claims right ≡ true
      → claim_bindings_overlap left.claims right.claims ≡ true
  unfolding binding_matches claim_bindings_overlap
  matching-overlap left right h k = rw (agreeing left.claims right.claims h k) refl

  -- A binding above matches the claims.
  abbrev Hit : List (List (Text × Text)) → Type 0
  Hit seen = any (all says) seen ≡ true

  Hit-refused :
      (seen : List (List (Text × Text))) (binding : OidcBinding)
      → Hit seen
      → binding_matches claims binding ≡ true
      → any (λ existing. claim_bindings_overlap existing binding.claims) seen ≡ true
  unfolding any binding_matches claim_bindings_overlap
  Hit-refused [] binding h k = h
  Hit-refused (entries ∷ seen) binding h k = elim (Bool-cases (all says entries)) [
    | inl t ↦ rw (agreeing entries binding.claims t k) refl
    | inr f ↦ ground (arith, Hit-refused seen binding)
  ]

  Hit-append :
      (seen : List (List (Text × Text))) (entries : List (Text × Text))
      → Hit seen
      → Hit (seen ++ (entries ∷ []))
  unfolding any
  Hit-append [] entries h = absurd (ground arith)
  Hit-append (others ∷ seen) entries h = ground (arith, Hit-append seen entries)

  Hit-last :
      (seen : List (List (Text × Text))) (entries : List (Text × Text))
      → all says entries ≡ true
      → Hit (seen ++ (entries ∷ []))
  unfolding any
  Hit-last [] entries h = ground arith
  Hit-last (others ∷ seen) entries h = ground (arith, Hit-last seen entries)

  validate_bindings-cons :
      (seen : List (List (Text × Text))) (binding : OidcBinding) (rest : List OidcBinding)
      → validate_bindings seen (binding ∷ rest) ≡ ok tt
      → (any (λ existing. claim_bindings_overlap existing binding.claims) seen ≡ false)
        × (validate_bindings (seen ++ (binding.claims ∷ [])) rest ≡ ok tt)
  unfolding validate_bindings binding_refused
  validate_bindings-cons seen binding rest h = ground arith

  Hit-unmatched :
      (seen : List (List (Text × Text))) (bindings : List OidcBinding)
      → Hit seen
      → validate_bindings seen bindings ≡ ok tt
      → filter (binding_matches claims) bindings ≡ []
  unfolding filter
  Hit-unmatched seen [] h v = refl
  Hit-unmatched seen (binding ∷ rest) h v =
      let (clear, later) = validate_bindings-cons seen binding rest v in
      ground (
        arith,
        Hit-refused seen binding h,
        Hit-unmatched (seen ++ (binding.claims ∷ [])) rest (Hit-append seen binding.claims h) later,
      )

  matching-last :
      (seen : List (List (Text × Text))) (binding : OidcBinding)
      → binding_matches claims binding ≡ true
      → Hit (seen ++ (binding.claims ∷ []))
  unfolding binding_matches
  matching-last seen binding h = Hit-last seen binding.claims h

  -- A binding that matches is the only one that does.
  matching-only :
      (seen : List (List (Text × Text))) (bindings : List OidcBinding) {binding : OidcBinding}
      → validate_bindings seen bindings ≡ ok tt
      → In binding bindings
      → binding_matches claims binding ≡ true
      → filter (binding_matches claims) bindings ≡ binding ∷ []
  unfolding filter
  matching-only seen [] v member h = elim member [ ]
  matching-only seen (binding ∷ rest) v In.here h =
      let (clear, later) = validate_bindings-cons seen binding rest v in
      rw
        (h, Hit-unmatched (seen ++ (binding.claims ∷ [])) rest (matching-last seen binding h) later)
        refl
  matching-only seen (other ∷ rest) {binding} v (In.there member) h =
      let (clear, later) = validate_bindings-cons seen other rest v in
      let found = matching-only (seen ++ (other.claims ∷ [])) rest later member h in
      elim (Bool-cases (binding_matches claims other)) [
        | inr miss ↦ rw miss found
        | inl hit ↦ absurd (
            nonempty (
              sym found
              ∙ Hit-unmatched (seen ++ (other.claims ∷ [])) rest (matching-last seen other hit)
                  later))
      ]
    where
      nonempty : ◌≡◌ {A = List OidcBinding} (binding ∷ []) [] → ⊥
      nonempty p = cc

validate_providers-bindings :
    (parse : Text → Option Url) (issuers : List Text) (providers : List OidcProviderPolicy)
    (issuer : Text) {provider : OidcProviderPolicy}
    → validate_providers parse issuers providers ≡ ok tt
    → find (λ provider. provider.issuer == issuer) providers ≡ some provider
    → validate_bindings [] provider.bindings ≡ ok tt
unfolding validate_providers find
validate_providers-bindings parse issuers [] issuer v p = cc
validate_providers-bindings parse issuers (first ∷ rest) issuer {provider} v p =
    elim (Bool-cases (first.issuer == issuer)) [
      | inl same ↦
          subst (λ q. validate_bindings [] q.bindings ≡ ok tt) (same_provider (ground arith))
            (elim (Result-cases (validate_bindings [] first.bindings)) [
              | inl (_, e) ↦ e
              | inr (x, e) ↦ absurd (ground arith)
            ])
      | inr other ↦
          validate_providers-bindings parse (first.issuer ∷ issuers) rest issuer
            {provider = provider} (ground arith) (ground arith)
    ]
  where
    same_provider :
        ◌≡◌ {A = Option OidcProviderPolicy} (some first) (some provider) → first ≡ provider
    same_provider q = cc

-- In a valid policy, a binding that matches the claims, of the first provider with their issuer, is
-- the one whose task they are authorized for.
pub authorize-matching :
    (parse : Text → Option Url) (policy : OidcPolicy) (claims : OidcClaims)
    (provider : OidcProviderPolicy) (binding : OidcBinding)
    → validate parse policy ≡ ok tt
    → find (λ provider. provider.issuer == claims.issuer) policy.providers ≡ some provider
    → In binding provider.bindings
    → binding_matches claims binding ≡ true
    → authorize policy claims ≡ ok binding.task
unfolding validate authorize only
authorize-matching parse policy claims provider binding v p member h =
    rw
      (
        p,
        matching-only claims [] provider.bindings
            (validate_providers-bindings parse [] policy.providers claims.issuer (ground arith) p)
            member h,
      )
      refl
