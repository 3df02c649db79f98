-- ===== src/Github/Verified.antt =====
-- src/github.rs: what an assertion satisfies that `GitHubVerifier::verify` accepts.
use github_oidc_exchange.Prelude.{
  ◌≡◌, refl, ap, ◌∙◌, inl, inr, true, false, some, nat_eq, list_eq, eq_iff, Result, ok, err,
  Bool-cases, Option-cases, Result-cases, get, ltb, is_empty, ◌||◌, ◌≤◌, arith, option_eq,
}
use github_oidc_exchange.Text.{Text, text, len}
use github_oidc_exchange.Effects.{◌>>=◌, from_result}
use github_oidc_exchange.Effects.Triple.{Triple, bind}
use github_oidc_exchange.Github.{GitHubClaims, VerifyError}
use github_oidc_exchange.Github.Cache.{Outside, GitHubVerifier, Keys, read_clock, V}
use github_oidc_exchange.Github.Key.{key}
use github_oidc_exchange.Github.Accept.{accepted_claims}
use github_oidc_exchange.Github.Accepted.{Accepted, accepted_claims-Accepted, accepted_claims-same}
use github_oidc_exchange.Github.Fresh.{Cached, key-Cached}
use github_oidc_exchange.Github.Verify.{
  max_assertion_bytes, Header, Jwt, validation, header_refused, or_invalid, verify,
}

module _ {W K J : Type 0} (o : Outside W K J) (p : GitHubVerifier) (jwt : Jwt K) where
  -- The assertion is not too long and its header asks for RS256 and a key that the cache holds; the
  -- library decodes the claims by that key, and they are accepted at the last reading of the clock.
  abbrev pub Verified : Text → GitHubClaims → Keys W K → Type 0
  Verified assertion claims s =
      (header : Header) × (kid : Text) × (k : K) × (w : W) × (len assertion ≤ max_assertion_bytes)
      × (jwt.decode_header assertion ≡ some header)
      × (header.is_rs256 ≡ true)
      × (header.typ ≡ some (text "JWT"))
      × (header.kid ≡ some kid)
      × (get s.cache.keys kid ≡ some k)
      × (jwt.decode assertion k (validation p.audience) ≡ some claims)
      × (s.world ≡ (o.clock w).1)
      × Accepted p.audience (o.clock w).0 claims

  abbrev pub Verifies : Text → Result GitHubClaims VerifyError → Keys W K → Type 0
  Verifies assertion (ok claims) s = Verified assertion claims s
  Verifies assertion (err x) s = Unit

  abbrev Opens : Text → Header → Text → Type 0
  Opens assertion header kid =
      ((is_empty assertion || ltb max_assertion_bytes (len assertion)) ≡ false)
      × (jwt.decode_header assertion ≡ some header)
      × (header_refused header ≡ false)
      × (header.kid ≡ some kid)

  -- What follows the search for the key.
  abbrev with_key : Text → K → V o p GitHubClaims
  with_key assertion k = do
    claims ← or_invalid o p jwt (jwt.decode assertion k (validation p.audience))
    now ← read_clock o p
    from_result (accepted_claims p.audience now claims)

  with_key-Verifies :
      (assertion kid : Text) (header : Header) (k : K)
      → Opens assertion header kid
      → Triple (Cached o p kid (ok k)) (with_key assertion k) (Verifies assertion)
  with_key-Verifies assertion kid header k (short, read, passed, named) s (w, _, usable, found) =
      elim (Option-cases (jwt.decode assertion k (validation p.audience))) [
        | inl j ↦ rw j tt
        | inr (decoded, j) ↦
            elim (Result-cases (accepted_claims p.audience (o.clock s.world).0 decoded)) [
              | inr (x, m) ↦ rw (j, m) tt
              | inl (claims, m) ↦
                  rw (j, m)
                    (
                      header,
                      kid,
                      k,
                      s.world,
                      ground arith,
                      read,
                      ground arith,
                      (eq_iff header.typ (some (text "JWT"))).0 (ground arith),
                      named,
                      found,
                      j ∙ ap some (accepted_claims-same p.audience (o.clock s.world).0 decoded m),
                      refl,
                      accepted_claims-Accepted p.audience (o.clock s.world).0 decoded m,
                    )
            ]
      ]

  -- An assertion that verifies satisfies what `Verified` says, for the state that `verify` leaves.
  pub verify-Verifies :
      (assertion : Text) (s : Keys W K)
      → Verifies assertion (verify o p jwt assertion s).0 (verify o p jwt assertion s).1
  unfolding verify
  verify-Verifies assertion s =
      elim (Bool-cases (is_empty assertion || ltb max_assertion_bytes (len assertion))) [
        | inl refused ↦ rw refused tt
        | inr short ↦ elim (Option-cases (jwt.decode_header assertion)) [
          | inl e ↦ rw (short, e) tt
          | inr (header, e) ↦ elim (Bool-cases (header_refused header)) [
            | inl f ↦ rw (short, e, f) tt
            | inr f ↦ elim (Option-cases header.kid) [
              | inl g ↦ rw (short, e, f, g) tt
              | inr (kid, g) ↦
                  rw (short, e, f, g)
                    (bind (λ _. Unit) (Cached o p kid) (Verifies assertion) (key o p kid)
                      (with_key assertion) (λ t _. key-Cached o p kid t)
                      (λ k. with_key-Verifies assertion kid header k (short, e, f, g)) (λ x t _. tt)
                      s tt)
            ]
          ]
        ]
      ]
