-- ===== src/Oidc/Configured.antt =====
-- src/oidc.rs: the verifiers that `OidcVerifierSet` is made with are the providers of its policy.
use mathlib.Core.Option
use github_oidc_exchange.Prelude.{
  ℕ, ◌≡◌, refl, sym, subst, ap, ◌∙◌, inl, inr, List, [], ◌∷◌, Bool, true, false, Option, none, ◌==◌,
  nat_eq, list_eq, eq_iff, Bool-cases, Result-cases, arith, get, get-put, find, contains, Result,
  ok, err,
}
use github_oidc_exchange.Text.{Text}
use github_oidc_exchange.Oidc.{OidcPolicy, OidcProviderPolicy, OidcVerifyError, Url}
use github_oidc_exchange.Oidc.Policy.{
  provider_refused, validate_bindings, validate_providers, validate,
}
use github_oidc_exchange.Oidc.Cache.{ProviderVerifier}
use github_oidc_exchange.Oidc.Verify.{Providers, insert_providers, discover_with_additional_ca}

-- The verifier that is made for a provider of the policy.
abbrev pub verifier_of : ℕ → OidcProviderPolicy → ProviderVerifier
verifier_of max_staleness configured = record {
  issuer = configured.issuer;
  audience = configured.audience;
  max_staleness = max_staleness;
}

module _ (parse : Text → Option Url) (max_staleness : ℕ) where
  validate_providers-cons :
      (seen : List Text) (first : OidcProviderPolicy) (rest : List OidcProviderPolicy)
      → validate_providers parse seen (first ∷ rest) ≡ ok tt
      → (contains seen first.issuer ≡ false)
        × (validate_providers parse (first.issuer ∷ seen) rest ≡ ok tt)
  unfolding validate_providers provider_refused
  validate_providers-cons seen first rest v =
      elim (Result-cases (validate_bindings [] first.bindings)) [
        | inl (_, e) ↦ (ground arith, ground arith)
        | inr (x, e) ↦ absurd (ground arith)
      ]

  -- Later providers do not replace an earlier one's verifier.
  insert_providers-seen :
      (seen : List Text) (configured : List OidcProviderPolicy) (providers : Providers)
      (issuer : Text)
      → validate_providers parse seen configured ≡ ok tt
      → contains seen issuer ≡ true
      → get (insert_providers max_staleness providers configured) issuer ≡ get providers issuer
  unfolding insert_providers contains
  insert_providers-seen seen [] providers issuer v h = refl
  insert_providers-seen seen (first ∷ rest) providers issuer v h =
      let (clear, later) = validate_providers-cons seen first rest v in
      insert_providers-seen (first.issuer ∷ seen) rest _ issuer later (ground arith)
      ∙ get-put providers first.issuer issuer (verifier_of max_staleness first)
      ∙ rw (other clear) refl
    where
      not_both : false ≡ true → ⊥
      not_both p = cc

      other : contains seen first.issuer ≡ false → (first.issuer == issuer) ≡ false
      other clear = elim (Bool-cases (first.issuer == issuer)) [
        | inr differs ↦ differs
        | inl same ↦
            absurd
              (not_both (sym clear ∙ ap (contains seen) ((eq_iff first.issuer issuer).0 same) ∙ h))
      ]

  insert_providers-get :
      (seen : List Text) (configured : List OidcProviderPolicy) (providers : Providers)
      (issuer : Text)
      → validate_providers parse seen configured ≡ ok tt
      → get providers issuer ≡ none
      → get (insert_providers max_staleness providers configured) issuer
        ≡ Option.map (verifier_of max_staleness) (find (λ c. c.issuer == issuer) configured)
  unfolding insert_providers find contains
  insert_providers-get seen [] providers issuer v h = h
  insert_providers-get seen (first ∷ rest) providers issuer v h =
      let (clear, later) = validate_providers-cons seen first rest v in
      let stored = get-put providers first.issuer issuer (verifier_of max_staleness first) in
      elim (Bool-cases (first.issuer == issuer)) [
        | inl same ↦
            insert_providers-seen (first.issuer ∷ seen) rest _ issuer later (rw same refl)
            ∙ stored
            ∙ rw same refl
        | inr other ↦
            insert_providers-get (first.issuer ∷ seen) rest _ issuer later (stored ∙ rw other h)
            ∙ rw other refl
      ]

  validate-providers :
      (policy : OidcPolicy)
      → validate parse policy ≡ ok tt
      → validate_providers parse [] policy.providers ≡ ok tt
  unfolding validate
  validate-providers policy h = ground arith

  -- Where discovery succeeds, the verifier that is kept for an issuer is the one made for the provider
  -- that the policy finds first for it, and none is kept for any other issuer.
  pub discover-Configured :
      (client : Bool) (policy : OidcPolicy) (issuer : Text) {providers : Providers}
      → discover_with_additional_ca parse client policy max_staleness ≡ ok providers
      → get providers issuer
        ≡ Option.map (verifier_of max_staleness) (find (λ c. c.issuer == issuer) policy.providers)
  unfolding discover_with_additional_ca get
  discover-Configured client policy issuer {providers} =
      elim (Result-cases (validate parse policy)) [
        | inr (x, e) ↦ rw e (λ h. absurd (failed h))
        | inl (_, e) ↦ elim (Bool-cases client) [
          | inr unbuilt ↦ rw (e, unbuilt) (λ h. absurd (failed h))
          | inl built ↦
              rw (e, built)
                (λ h.
                  subst
                    (λ made.
                      get made issuer
                      ≡ Option.map (verifier_of max_staleness)
                          (find (λ c. c.issuer == issuer) policy.providers))
                    (same h)
                    (insert_providers-get [] policy.providers [] issuer
                      (validate-providers policy e) refl))
        ]
      ]
    where
      same :
          {made : Providers}
          → ◌≡◌ {A = Result Providers OidcVerifyError} (ok made) (ok providers)
          → made ≡ providers
      same p = cc

      failed :
          {x : OidcVerifyError}
          → ◌≡◌ {A = Result Providers OidcVerifyError} (err x) (ok providers)
          → ⊥
      failed p = cc
