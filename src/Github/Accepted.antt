-- ===== src/Github/Accepted.antt =====
-- src/github.rs: what the claims of an accepted assertion satisfy.
use github_oidc_exchange.Prelude.{
  ◌≡◌, ◌≢◌, subst, inl, inr, [], ◌∷◌, true, false, some, Result, ok, nat_eq, list_eq, eq_iff,
  Bool-cases, Option-cases, arith, is_empty,
}
use github_oidc_exchange.Prelude.Int.{ℤ, pos, ◌+ℤ◌, ◌≤ℤ◌, ◌<ℤ◌, checked_sub, lifetime_bounds}
use github_oidc_exchange.Text.{Text}
use github_oidc_exchange.Contract.{github_issuer}
use github_oidc_exchange.Github.{GitHubClaims, VerifyError}
use github_oidc_exchange.Github.Checks.{is_exactly}
use github_oidc_exchange.Github.Provenance.{Provenance, provenance_consistent-Provenance}
use github_oidc_exchange.Github.Accept.{claims_refused, accepted_claims}

-- The claims are GitHub's, for exactly the audience, live 1 to 600 seconds, were not made more than
-- 30 seconds ahead, hold from no later than their making, and say consistently where they came from.
abbrev pub Accepted : Text → ℤ → GitHubClaims → Type 0
Accepted audience now claims =
    (claims.iss ≡ github_issuer)
    × (is_exactly claims.aud audience ≡ true)
    × (claims.iat <ℤ claims.exp)
    × (claims.exp ≤ℤ claims.iat +ℤ pos 600)
    × (claims.iat ≤ℤ now +ℤ pos 30)
    × (claims.nbf ≤ℤ claims.iat)
    × (claims.jti ≢ [])
    × Provenance claims

refused-Accepted :
    (audience : Text) (now lifetime : ℤ) (claims : GitHubClaims)
    → checked_sub claims.exp claims.iat ≡ some lifetime
    → claims_refused audience now lifetime claims ≡ false
    → Accepted audience now claims
unfolding claims_refused
refused-Accepted audience now lifetime claims e h =
    let (later, short) =
      lifetime_bounds claims.exp claims.iat 600 e (ground arith) (ground arith) in
    (
      (eq_iff claims.iss github_issuer).0 (ground arith),
      ground arith,
      later,
      short,
      ground arith,
      ground arith,
      nonempty claims.jti (ground arith),
      provenance_consistent-Provenance claims (ground arith),
    )
  where
    nonempty : (s : Text) → is_empty s ≡ false → s ≢ []
    nonempty [] k = absurd (ground arith)
    nonempty (c ∷ cs) k = λ p. cc

-- Claims that are accepted satisfy what `Accepted` says, for the clock's reading `now`.
pub accepted_claims-Accepted :
    (audience : Text) (now : ℤ) (decoded : GitHubClaims) {claims : GitHubClaims}
    → accepted_claims audience now decoded ≡ ok claims
    → Accepted audience now claims
unfolding accepted_claims
accepted_claims-Accepted audience now decoded {claims} =
    elim (Option-cases (checked_sub decoded.exp decoded.iat)) [
      | inl missing ↦ rw missing (λ p. cc)
      | inr (lifetime, e) ↦ elim (Bool-cases (claims_refused audience now lifetime decoded)) [
        | inl refused ↦ rw (e, refused) (λ p. cc)
        | inr passed ↦
            rw (e, passed)
              (λ p.
                subst (Accepted audience now) (same p)
                  (refused-Accepted audience now lifetime decoded e passed))
      ]
    ]
  where
    same :
        {made : GitHubClaims}
        → ◌≡◌ {A = Result GitHubClaims VerifyError} (ok made) (ok claims)
        → made ≡ claims
    same p = cc

pub accepted_claims-same :
    (audience : Text) (now : ℤ) (decoded : GitHubClaims) {claims : GitHubClaims}
    → accepted_claims audience now decoded ≡ ok claims
    → decoded ≡ claims
unfolding accepted_claims
accepted_claims-same audience now decoded {claims} =
    elim (Option-cases (checked_sub decoded.exp decoded.iat)) [
      | inl missing ↦ rw missing (λ p. cc)
      | inr (lifetime, e) ↦ elim (Bool-cases (claims_refused audience now lifetime decoded)) [
        | inl refused ↦ rw (e, refused) (λ p. cc)
        | inr passed ↦ rw (e, passed) (λ p. cc)
      ]
    ]
