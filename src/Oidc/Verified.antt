-- ===== src/Oidc/Verified.antt =====
-- src/oidc.rs: what an assertion satisfies that `OidcVerifierSet::verify` accepts.
use github_oidc_exchange.Prelude.{
  ◌≡◌, refl, inl, inr, true, false, some, nat_eq, list_eq, eq_iff, Result, ok, err, List,
  Bool-cases, Option-cases, Result-cases, get, ltb, is_empty, ◌||◌, ◌≤◌, arith, option_eq,
}
use github_oidc_exchange.Text.{Text, text, len}
use github_oidc_exchange.Effects.{◌>>=◌, from_result}
use github_oidc_exchange.Effects.Triple.{Triple, bind}
use github_oidc_exchange.Oidc.{OidcClaims, OidcVerifyError, Value}
use github_oidc_exchange.Oidc.Claims.{validated_claims}
use github_oidc_exchange.Oidc.Accepted.{Accepted, validated_claims-Accepted}
use github_oidc_exchange.Oidc.Cache.{Outside, ProviderVerifier}
use github_oidc_exchange.Oidc.Fresh.{Given, key-Given}
use github_oidc_exchange.Oidc.Verify.{
  max_assertion_bytes, Header, Jwt, Providers, VerifierSet, validation, header_refused, or_invalid,
  S, provider_of, provider_key, read_clock, verify,
}

module _ {W K J : Type 0} (o : Outside W K J) (providers : Providers) (jwt : Jwt K) where
  -- The assertion is not too long, its header asks for RS256 and a key, and it names a provider of the
  -- set. The provider's cache holds the key, the library decodes the values by that key for the
  -- provider's issuer and audience, and they are accepted for these at the last reading of the clock.
  abbrev pub Verified : Text → OidcClaims → VerifierSet W K → Type 0
  Verified assertion claims s =
      (header : Header) × (kid issuer : Text) × (provider : ProviderVerifier) × (k : K)
      × (values : List (Text × Value)) × (w : W) × (len assertion ≤ max_assertion_bytes)
      × (jwt.decode_header assertion ≡ some header)
      × (header.is_rs256 ≡ true)
      × (header.typ ≡ some (text "JWT"))
      × (header.kid ≡ some kid)
      × (jwt.unverified_issuer assertion ≡ some issuer)
      × (get providers issuer ≡ some provider)
      × (get (s.states issuer).cache.keys kid ≡ some k)
      × (jwt.decode assertion k (validation provider) ≡ some values)
      × (s.world ≡ (o.clock w).1)
      × Accepted values provider.issuer provider.audience (o.clock w).0 claims

  abbrev pub Verifies : Text → Result OidcClaims OidcVerifyError → VerifierSet W K → Type 0
  Verifies assertion (ok claims) s = Verified assertion claims s
  Verifies assertion (err x) s = Unit

  abbrev Opens : Text → Header → Text → Text → ProviderVerifier → Type 0
  Opens assertion header kid issuer provider =
      ((is_empty assertion || ltb max_assertion_bytes (len assertion)) ≡ false)
      × (jwt.decode_header assertion ≡ some header)
      × (header_refused header ≡ false)
      × (header.kid ≡ some kid)
      × (jwt.unverified_issuer assertion ≡ some issuer)
      × (get providers issuer ≡ some provider)

  -- `Given` for one provider of the set.
  abbrev Held : Text → ProviderVerifier → Text → Result K OidcVerifyError → VerifierSet W K → Type 0
  Held issuer provider kid r s = Given o provider kid r (provider_of o providers jwt issuer s)

  provider_key-Held :
      (issuer : Text) (provider : ProviderVerifier) (kid : Text)
      → Triple
          (λ _. Unit)
          (provider_key o providers jwt issuer provider kid)
          (Held issuer provider kid)
  provider_key-Held issuer provider kid s _ =
      rw ((eq_iff issuer issuer).1 refl)
        (key-Given o provider kid (provider_of o providers jwt issuer s))

  -- What follows the search for the key.
  abbrev with_key : Text → ProviderVerifier → K → S o providers jwt OidcClaims
  with_key assertion provider k = do
    values ← or_invalid o providers jwt (jwt.decode assertion k (validation provider))
    now ← read_clock o providers jwt
    from_result (validated_claims values provider.issuer provider.audience now)

  with_key-Verifies :
      (assertion kid issuer : Text) (header : Header) (provider : ProviderVerifier) (k : K)
      → Opens assertion header kid issuer provider
      → Triple
          (Held issuer provider kid (ok k))
          (with_key assertion provider k)
          (Verifies assertion)
  with_key-Verifies assertion kid issuer header provider k
        (short, read, passed, named, claimed, known) s (w, _, usable, found) =
      elim (Option-cases (jwt.decode assertion k (validation provider))) [
        | inl j ↦ rw j tt
        | inr (values, j) ↦
            elim (Result-cases
              (validated_claims values provider.issuer provider.audience (o.clock s.world).0)) [
                | inr (x, m) ↦ rw (j, m) tt
                | inl (claims, m) ↦
                    rw (j, m)
                      (
                        header,
                        kid,
                        issuer,
                        provider,
                        k,
                        values,
                        s.world,
                        ground arith,
                        read,
                        ground arith,
                        (eq_iff header.typ (some (text "JWT"))).0 (ground arith),
                        named,
                        claimed,
                        known,
                        found,
                        j,
                        refl,
                        validated_claims-Accepted values provider.issuer provider.audience
                            (o.clock s.world).0 m,
                      )
              ]
      ]

  -- An assertion that `verify` accepts satisfies what `Verified` says, for the claims that it gives and
  -- the state that it leaves.
  pub verify-Provides :
      (assertion : Text) (s : VerifierSet W K)
      → Verifies assertion
          (verify o providers jwt assertion s).0
          (verify o providers jwt assertion s).1
  unfolding verify
  verify-Provides assertion s =
      elim (Bool-cases (is_empty assertion || ltb max_assertion_bytes (len assertion))) [
        | inl refused ↦ rw refused tt
        | inr short ↦ elim (Option-cases (jwt.decode_header assertion)) [
          | inl e ↦ rw (short, e) tt
          | inr (header, e) ↦ elim (Bool-cases (header_refused header)) [
            | inl f ↦ rw (short, e, f) tt
            | inr f ↦ elim (Option-cases header.kid) [
              | inl g ↦ rw (short, e, f, g) tt
              | inr (kid, g) ↦ elim (Option-cases (jwt.unverified_issuer assertion)) [
                | inl h ↦ rw (short, e, f, g, h) tt
                | inr (issuer, h) ↦ elim (Option-cases (get providers issuer)) [
                  | inl i ↦ rw (short, e, f, g, h, i) tt
                  | inr (provider, i) ↦
                      rw (short, e, f, g, h, i)
                        (bind (λ _. Unit) (Held issuer provider kid) (Verifies assertion)
                          (provider_key o providers jwt issuer provider kid)
                          (with_key assertion provider) (provider_key-Held issuer provider kid)
                          (λ k.
                            with_key-Verifies assertion kid issuer header provider k
                              (short, e, f, g, h, i))
                          (λ x t _. tt) s tt)
                ]
              ]
            ]
          ]
        ]
      ]
