-- ===== src/Browser/Accepted.antt =====
-- src/browser_hop1.rs: what an accepted assertion satisfies, and the keys that are loaded.
use github_oidc_exchange.Prelude.{
  ◌≡◌, refl, inl, inr, true, ◌||◌, not, some, nat_eq, list_eq, eq_iff, Result, ok, err, Bool-cases,
  Option-cases, get, ltb, is_empty, ◌≤◌, arith, option_eq, ◌==◌,
}
use github_oidc_exchange.Prelude.Int.{ℤ, pos, ◌+ℤ◌, ◌≤ℤ◌, ◌<ℤ◌, checked_sub, lifetime_bounds}
use github_oidc_exchange.Text.{Text, text, len}
use github_oidc_exchange.Browser.{
  BrowserHop1RequestClaims, BrowserHop1VerifierError, BrowserHop1Operation, canonical_email,
  canonical_user_id, operation_id, max_assertion_bytes, is_github_oauth_connect,
}
use github_oidc_exchange.Browser.Verify.{
  StewardBrowserAssertionVerifier, Header, Jwt, validation, claims_refused, verify,
}

module _ {K : Type 0} (jwt : Jwt K) (v : StewardBrowserAssertionVerifier K) where
  -- The assertion is not too long, its header asks for ES256 and a key of the verifier's, the library
  -- decodes the claims by that key, and they are of the issuer and for the audience, live 1 to 60
  -- seconds, were not made more than 5 seconds ahead, and name a verified canonical user.
  abbrev pub Attests : Text → ℤ → Result BrowserHop1RequestClaims BrowserHop1VerifierError → Type 0
  Attests assertion now (err x) = Unit
  Attests assertion now (ok claims) =
      (header : Header) × (kid : Text) × (k : K) × (len assertion ≤ max_assertion_bytes)
      × (jwt.decode_header assertion ≡ some header)
      × (header.is_es256 ≡ true)
      × (header.typ ≡ some (text "JWT"))
      × (header.kid ≡ some kid)
      × (get v.keys kid ≡ some k)
      × (jwt.decode assertion k (validation jwt v) ≡ some claims)
      × (claims.iss ≡ v.issuer)
      × (claims.aud ≡ v.audience)
      × (claims.iat <ℤ claims.exp)
      × (claims.exp ≤ℤ claims.iat +ℤ pos 60)
      × (claims.iat ≤ℤ now +ℤ pos 5)
      × (claims.nbf ≤ℤ claims.iat)
      × (canonical_user_id claims.sub ≡ true)
      × (canonical_email claims.email ≡ true)
      × (claims.email_verified ≡ true)
      × (operation_id claims.operation_id ≡ true)
      × (claims.operation ≡ BrowserHop1Operation.github_oauth_connect)

  is_connect :
      (operation : BrowserHop1Operation)
      → is_github_oauth_connect operation ≡ true
      → operation ≡ BrowserHop1Operation.github_oauth_connect
  is_connect BrowserHop1Operation.github_oauth_connect h = refl
  is_connect BrowserHop1Operation.other h = absurd (ground arith)

  -- An assertion that verifies satisfies what `Attests` says, for the clock's reading `now`.
  pub verify-Attests :
      (assertion : Text) (now : ℤ) → Attests assertion now (verify jwt v assertion now)
  unfolding verify claims_refused
  verify-Attests assertion now =
      elim (Bool-cases (is_empty assertion || ltb max_assertion_bytes (len assertion))) [
        | inl a ↦ rw a tt
        | inr a ↦ elim (Option-cases (jwt.decode_header assertion)) [
          | inl b ↦ rw (a, b) tt
          | inr (header, b) ↦
              elim (Bool-cases (not header.is_es256 || not (header.typ == some (text "JWT")))) [
                | inl c ↦ rw (a, b, c) tt
                | inr c ↦ elim (Option-cases header.kid) [
                  | inl d ↦ rw (a, b, c, d) tt
                  | inr (kid, d) ↦ elim (Option-cases (get v.keys kid)) [
                    | inl e ↦ rw (a, b, c, d, e) tt
                    | inr (k, e) ↦ elim (Option-cases (jwt.decode assertion k (validation jwt v))) [
                      | inl f ↦ rw (a, b, c, d, e, f) tt
                      | inr (claims, f) ↦ elim (Option-cases (checked_sub claims.exp claims.iat)) [
                        | inl g ↦ rw (a, b, c, d, e, f, g) tt
                        | inr (lifetime, g) ↦
                            elim (Bool-cases
                              (claims_refused v.issuer v.audience now lifetime claims)) [
                                | inl h ↦ rw (a, b, c, d, e, f, g, h) tt
                                | inr h ↦
                                    let (later, short) =
                                      lifetime_bounds claims.exp claims.iat 60 g (ground arith)
                                        (ground arith) in
                                    rw (a, b, c, d, e, f, g, h)
                                      (
                                        header,
                                        kid,
                                        k,
                                        ground arith,
                                        b,
                                        ground arith,
                                        (eq_iff header.typ (some (text "JWT"))).0 (ground arith),
                                        d,
                                        e,
                                        f,
                                        (eq_iff claims.iss v.issuer).0 (ground arith),
                                        (eq_iff claims.aud v.audience).0 (ground arith),
                                        later,
                                        short,
                                        ground arith,
                                        ground arith,
                                        ground arith,
                                        ground arith,
                                        ground arith,
                                        ground arith,
                                        is_connect claims.operation (ground arith),
                                      )
                              ]
                      ]
                    ]
                  ]
                ]
              ]
        ]
      ]
