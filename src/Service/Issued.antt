-- ===== src/Service/Issued.antt =====
-- src/service.rs: what an exchange counts, and what a token that it issues says.
use github_oidc_exchange.Prelude.{
  ◌≡◌, ◌≢◌, refl, true, String, get, nat_eq, list_eq, some, ◌⊎◌, inl, inr, Result, ok, err,
  Result-cases,
}
use github_oidc_exchange.Text.{Text}
use github_oidc_exchange.Replay.{ReplayError, replayed, unavailable, configuration}
use github_oidc_exchange.Effects.{bump}
use github_oidc_exchange.Exchange.{Readings, State}
use github_oidc_exchange.Keys.{KeyError, sign_at, in_window}
use github_oidc_exchange.Keys.Windows.{sign_at-inversion}
use github_oidc_exchange.Github.{GitHubClaims, VerifyError}
use github_oidc_exchange.Policy.{Identity, PolicyError}
use github_oidc_exchange.Policy.Authorize.{authorize}
use github_oidc_exchange.Service.{Metrics, ExchangeError, ExchangeService}
use github_oidc_exchange.Service.Exchange.{output_claims, exchange}

module _ {W K : Type 0} (s : ExchangeService W K) (r : Readings) (assertion : Text) where
  abbrev verified : State Metrics W → Result GitHubClaims VerifyError
  verified before = (s.verify assertion before.world).0

  -- The assertion verifies, the policy authorizes it, and this is the ledger's answer.
  abbrev Answered :
      State Metrics W → GitHubClaims → Identity → Result (Unit {0}) ReplayError → Type 0
  Answered before claims identity answer =
      (verified before ≡ ok claims)
      × (authorize s.policy claims ≡ ok identity)
      × ((s.ledger.use_once claims.jti claims.exp (s.verify assertion before.world).1).0 ≡ answer)

  -- The assertion does not verify, or the policy refuses it.
  abbrev Denied : State Metrics W → Type 0
  Denied before =
      (verified before ≡ err VerifyError.invalid)
      ⊎ ((claims : GitHubClaims) × (x : PolicyError) × (verified before ≡ ok claims)
          × (authorize s.policy claims ≡ err x))

  -- The ledger holds the assertion already.
  abbrev Reused : State Metrics W → Type 0
  Reused before =
      (claims : GitHubClaims) × (identity : Identity) × Answered before claims identity
        (err replayed)

  -- The keys of GitHub are unavailable, the ledger fails, or no token can be signed.
  abbrev Failed : State Metrics W → Type 0
  Failed before =
      ((stage detail : String) × (verified before
          ≡ err (VerifyError.keys_unavailable stage detail)))
      ⊎ ((claims : GitHubClaims) × (identity : Identity) × (((x : ReplayError) × (x ≢ replayed)
              × Answered before claims identity (err x))
            ⊎ ((x : KeyError) × Answered before claims identity (ok tt)
                × (sign_at "" s.encode s.keys (output_claims s r claims identity) r.signed_at
                    ≡ err x))))

  -- The counters after an exchange by its result, and the cause of the result where it is an error.
  -- One counter beside that of the requests moves: of a replay it is `replayed` and not `denied`.
  abbrev pub Counted : State Metrics W → Result Text ExchangeError → Metrics → Type 0
  Counted before (ok token) after = after ≡ record {
    requests = bump before.metrics.requests;
    issued = bump before.metrics.issued;
    denied = before.metrics.denied;
    replayed = before.metrics.replayed;
    errors = before.metrics.errors;
  }
  Counted before (err ExchangeError.unauthorized) after =
      (Denied before
        × (after ≡ record {
          requests = bump before.metrics.requests;
          issued = before.metrics.issued;
          denied = bump before.metrics.denied;
          replayed = before.metrics.replayed;
          errors = before.metrics.errors;
        }))
      ⊎ (Reused before
          × (after ≡ record {
            requests = bump before.metrics.requests;
            issued = before.metrics.issued;
            denied = before.metrics.denied;
            replayed = bump before.metrics.replayed;
            errors = before.metrics.errors;
          }))
  Counted before (err ExchangeError.unavailable) after =
      Failed before
      × (after ≡ record {
        requests = bump before.metrics.requests;
        issued = before.metrics.issued;
        denied = before.metrics.denied;
        replayed = before.metrics.replayed;
        errors = bump before.metrics.errors;
      })

  -- Each exchange counts one request and the one outcome that its cause calls for, and leaves the
  -- other counters as they are; its error is the one that the cause calls for.
  pub exchange-Counted :
      (before : State Metrics W)
      → Counted before (exchange s r assertion before).0 (exchange s r assertion before).1.metrics
  unfolding exchange
  exchange-Counted before = elim (Result-cases (s.verify assertion before.world).0) [
    | inr (VerifyError.invalid, e) ↦ rw e (inl (inl e, refl))
    | inr (VerifyError.keys_unavailable stage detail, e) ↦ rw e (inl (stage, detail, e), refl)
    | inl (claims, e) ↦ elim (Result-cases (authorize s.policy claims)) [
      | inr (x, f) ↦ rw (e, f) (inl (inr (claims, x, e, f), refl))
      | inl (identity, f) ↦
          elim (Result-cases
            (s.ledger.use_once claims.jti claims.exp (s.verify assertion before.world).1).0) [
              | inr (replayed, g) ↦ rw (e, f, g) (inr ((claims, identity, (e, f, g)), refl))
              | inr (unavailable, g) ↦
                  rw (e, f, g)
                    (inr (claims, identity, inl (unavailable, (λ p. cc), (e, f, g))), refl)
              | inr (configuration why, g) ↦
                  rw (e, f, g)
                    (inr (claims, identity, inl (configuration why, (λ p. cc), (e, f, g))), refl)
              | inl (_, g) ↦
                  elim (Result-cases
                    (sign_at "" s.encode s.keys (output_claims s r claims identity) r.signed_at)) [
                      | inr (x, h) ↦
                          rw (e, f, g, h) (inr (claims, identity, inr (x, (e, f, g), h)), refl)
                      | inl (token, h) ↦ rw (e, f, g, h) refl
                    ]
            ]
    ]
  ]

  -- A token is issued only for an assertion that verifies, that the policy authorizes and that the
  -- ledger takes for unused; it is then the current key's token, within that key's window, of the
  -- claims made of the assertion and of the identity that the policy gives it.
  pub exchange-Issued :
      (before : State Metrics W) {token : Text}
      → (exchange s r assertion before).0 ≡ ok token
      → (claims : GitHubClaims) × (identity : Identity) × (key : K) × ((s.verify assertion
            before.world).0
          ≡ ok claims)
        × (authorize s.policy claims ≡ ok identity)
        × (s.ledger.use_once claims.jti claims.exp (s.verify assertion before.world).1
            ≡ (ok tt, (exchange s r assertion before).1.world))
        × (in_window s.keys.current_not_before s.keys.current_not_after r.signed_at ≡ true)
        × (get s.keys.keys s.keys.current_kid ≡ some key)
        × (s.encode s.keys.current_kid key (output_claims s r claims identity) ≡ some token)
  unfolding exchange
  exchange-Issued before {token} = elim (Result-cases (s.verify assertion before.world).0) [
    | inr (VerifyError.invalid, e) ↦ rw e (λ p. cc)
    | inr (VerifyError.keys_unavailable _ _, e) ↦ rw e (λ p. cc)
    | inl (claims, e) ↦ elim (Result-cases (authorize s.policy claims)) [
      | inr (x, f) ↦ rw (e, f) (λ p. cc)
      | inl (identity, f) ↦
          elim (Result-cases
            (s.ledger.use_once claims.jti claims.exp (s.verify assertion before.world).1).0) [
              | inr (replayed, g) ↦ rw (e, f, g) (λ p. cc)
              | inr (unavailable, g) ↦ rw (e, f, g) (λ p. cc)
              | inr (configuration _, g) ↦ rw (e, f, g) (λ p. cc)
              | inl (_, g) ↦
                  elim (Result-cases
                    (sign_at "" s.encode s.keys (output_claims s r claims identity) r.signed_at)) [
                      | inr (x, h) ↦ rw (e, f, g, h) (λ p. cc)
                      | inl (signed, h) ↦
                          rw (e, f, g, h)
                            (λ p.
                              let (inside, key, found, made) =
                                sign_at-inversion "" s.encode s.keys
                                  (output_claims s r claims identity) r.signed_at (relabel h p) in
                              (claims, identity, key, refl, f, pair g, inside, found, made))
                    ]
            ]
    ]
  ]
    where
      pair : {A B : Type 0} {p : A × B} {a : A} → p.0 ≡ a → p ≡ (a, p.1)
      pair e = cc

      relabel :
          {result : Result Text KeyError} {a b : Text}
          → result ≡ ok a
          → ◌≡◌ {A = Result Text ExchangeError} (ok a) (ok b)
          → result ≡ ok b
      relabel h p = cc
