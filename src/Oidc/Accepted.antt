-- ===== src/Oidc/Accepted.antt =====
-- src/oidc.rs: what the claims that `validated_claims` accepts satisfy.
use github_oidc_exchange.Prelude.{
  ◌≡◌, refl, subst, inl, inr, List, true, false, Option, some, nat_eq, list_eq, eq_iff, Bool-cases,
  Option-cases, Result-cases, arith, get, Result, ok,
}
use github_oidc_exchange.Prelude.Int.{ℤ, pos, ◌+ℤ◌, ◌≤ℤ◌, ◌<ℤ◌, checked_sub, lifetime_bounds}
use github_oidc_exchange.Text.{Text, text}
use github_oidc_exchange.Oidc.{OidcClaims, OidcVerifyError, Value}
use github_oidc_exchange.Oidc.Claims.{
  assertion_refused, as_string, as_i64, optional_string, neither, as_u64, jti_refused,
  exact_audience, validated_claims,
}

-- The claims are of the issuer and for the audience, are not over, were not made more than 30
-- seconds ahead, and live 1 to 600 seconds.
abbrev pub Accepted : List (Text × Value) → Text → Text → ℤ → OidcClaims → Type 0
Accepted values issuer audience now claims =
    (claims.issuer ≡ issuer)
    × (claims.values ≡ values)
    × (exact_audience (get values (text "aud")) audience ≡ true)
    × (now <ℤ claims.expires_at)
    × (claims.issued_at ≤ℤ now +ℤ pos 30)
    × (claims.issued_at <ℤ claims.expires_at)
    × (claims.expires_at ≤ℤ claims.issued_at +ℤ pos 600)
    × (neither claims.jti claims.build_number ≡ false)

checked-Accepted :
    (values : List (Text × Value)) (issuer audience : Text) (now : ℤ) (actual subject : Text)
    (expires_at issued_at lifetime : ℤ) (jti : Option Text)
    → checked_sub expires_at issued_at ≡ some lifetime
    → assertion_refused values issuer audience now actual subject expires_at issued_at lifetime
      ≡ false
    → neither jti (as_u64 (get values (text "build_number"))) ≡ false
    → Accepted values issuer audience now (record {
      issuer = actual;
      subject = subject;
      expires_at = expires_at;
      issued_at = issued_at;
      jti = jti;
      build_number = as_u64 (get values (text "build_number"));
      values = values;
    })
unfolding assertion_refused
checked-Accepted values issuer audience now actual subject expires_at issued_at lifetime jti e h k =
    let (later, short) = lifetime_bounds expires_at issued_at 600 e (ground arith) (ground arith) in
    (
      (eq_iff actual issuer).0 (ground arith),
      refl,
      ground arith,
      ground arith,
      ground arith,
      later,
      short,
      k,
    )

-- Claims that are accepted satisfy what `Accepted` says, for the clock's reading `now`.
pub validated_claims-Accepted :
    (values : List (Text × Value)) (issuer audience : Text) (now : ℤ) {claims : OidcClaims}
    → validated_claims values issuer audience now ≡ ok claims
    → Accepted values issuer audience now claims
unfolding validated_claims
validated_claims-Accepted values issuer audience now {claims} =
    elim (Result-cases (as_string (get values (text "iss")))) [
      | inr (_, e) ↦ rw e (λ p. cc)
      | inl (actual, e) ↦ elim (Result-cases (as_string (get values (text "sub")))) [
        | inr (_, f) ↦ rw (e, f) (λ p. cc)
        | inl (subject, f) ↦ elim (Result-cases (as_i64 (get values (text "exp")))) [
          | inr (_, g) ↦ rw (e, f, g) (λ p. cc)
          | inl (expires_at, g) ↦ elim (Result-cases (as_i64 (get values (text "iat")))) [
            | inr (_, h) ↦ rw (e, f, g, h) (λ p. cc)
            | inl (issued_at, h) ↦ elim (Option-cases (checked_sub expires_at issued_at)) [
              | inl i ↦ rw (e, f, g, h, i) (λ p. cc)
              | inr (lifetime, i) ↦
                  rw (e, f, g, h, i)
                    (elim (Bool-cases (
                      assertion_refused values issuer audience now actual subject expires_at
                        issued_at lifetime)) [
                          | inl j ↦ rw j (λ p. cc)
                          | inr j ↦
                              elim (Result-cases (optional_string (get values (text "jti")))) [
                                | inr (_, k) ↦ rw (j, k) (λ p. cc)
                                | inl (jti, k) ↦ elim (Bool-cases (jti_refused jti)) [
                                  | inl l ↦ rw (j, k, l) (λ p. cc)
                                  | inr l ↦
                                      elim (Bool-cases
                                        (neither jti (as_u64 (get values (text "build_number"))))) [
                                          | inl m ↦ rw (j, k, l, m) (λ p. cc)
                                          | inr m ↦
                                              rw (j, k, l, m)
                                                (λ p.
                                                  subst (Accepted values issuer audience now)
                                                    (same p)
                                                    (checked-Accepted values issuer audience now
                                                      actual subject expires_at issued_at lifetime
                                                      jti i j m))
                                        ]
                                ]
                              ]
                        ])
            ]
          ]
        ]
      ]
    ]
  where
    same :
        {made : OidcClaims}
        → ◌≡◌ {A = Result OidcClaims OidcVerifyError} (ok made) (ok claims)
        → made ≡ claims
    same p = cc
