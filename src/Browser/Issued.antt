-- ===== src/Browser/Issued.antt =====
-- src/browser_hop1.rs: what an exchange counts, and what a token that it issues says.
use github_oidc_exchange.Prelude.{
  ◌≡◌, ◌≢◌, refl, true, false, get, nat_eq, list_eq, some, ◌⊎◌, inl, inr, Result, ok, err,
  Result-cases, Bool-cases,
}
use github_oidc_exchange.Text.{Text}
use github_oidc_exchange.Replay.{ReplayError, replayed, unavailable, configuration}
use github_oidc_exchange.Effects.{bump}
use github_oidc_exchange.Exchange.{Readings, State}
use github_oidc_exchange.Keys.{KeyError, sign_at, in_window}
use github_oidc_exchange.Keys.Windows.{sign_at-inversion}
use github_oidc_exchange.Workload.{WorkloadIdentity, WorkloadPolicyError}
use github_oidc_exchange.Workload.Identities.{authorize}
use github_oidc_exchange.Browser.{BrowserHop1RequestClaims, invalid}
use github_oidc_exchange.Browser.Service.{
  BrowserHop1Metrics, BrowserHop1ExchangeError, BrowserHop1ExchangeService, has_issuer_role,
  replay_key, output_claims, exchange,
}

module _ {W K : Type 0} (s : BrowserHop1ExchangeService W K) (r : Readings)
    (username assertion : Text) where
  -- The caller holds the issuer's role, the assertion verifies, and the ledger takes it for unused;
  -- the token is the current key's, within that key's window, of the claims made of the assertion.
  abbrev pub Attested :
      State BrowserHop1Metrics W → Result Text BrowserHop1ExchangeError → W → Type 0
  Attested before (err x) after = Unit
  Attested before (ok token) after =
      (caller : WorkloadIdentity) × (request : BrowserHop1RequestClaims) × (key : K) × (authorize
          s.policy username
        ≡ ok caller)
      × (has_issuer_role caller ≡ true)
      × ((s.verify assertion before.world).0 ≡ ok request)
      × (s.ledger.use_once (replay_key request) request.exp (s.verify assertion before.world).1
          ≡ (ok tt, after))
      × (in_window s.keys.current_not_before s.keys.current_not_after r.signed_at ≡ true)
      × (get s.keys.keys s.keys.current_kid ≡ some key)
      × (s.encode s.keys.current_kid key (output_claims s r request) ≡ some token)

  -- The caller holds the issuer's role, the assertion verifies, and this is the ledger's answer.
  abbrev Answered :
      State BrowserHop1Metrics W
      → WorkloadIdentity
      → BrowserHop1RequestClaims
      → Result (Unit {0}) ReplayError
      → Type 0
  Answered before caller request answer =
      (authorize s.policy username ≡ ok caller)
      × (has_issuer_role caller ≡ true)
      × ((s.verify assertion before.world).0 ≡ ok request)
      × ((s.ledger.use_once (replay_key request) request.exp (s.verify assertion before.world).1).0
          ≡ answer)

  -- The policy does not know the caller, it has not the role, or the assertion does not verify.
  abbrev Denied : State BrowserHop1Metrics W → Type 0
  Denied before =
      ((x : WorkloadPolicyError) × (authorize s.policy username ≡ err x))
      ⊎ ((caller : WorkloadIdentity) × (authorize s.policy username ≡ ok caller)
          × ((has_issuer_role caller ≡ false)
              ⊎ ((has_issuer_role caller ≡ true)
                  × ((s.verify assertion before.world).0 ≡ err invalid))))

  -- The ledger holds the assertion already.
  abbrev Reused : State BrowserHop1Metrics W → Type 0
  Reused before =
      (caller : WorkloadIdentity) × (request : BrowserHop1RequestClaims) × Answered before caller
        request (err replayed)

  -- The ledger fails, or no token can be signed.
  abbrev Failed : State BrowserHop1Metrics W → Type 0
  Failed before =
      (caller : WorkloadIdentity) × (request : BrowserHop1RequestClaims) × (((x : ReplayError) × (x
            ≢ replayed)
          × Answered before caller request (err x))
        ⊎ ((x : KeyError) × Answered before caller request (ok tt)
            × (sign_at "" s.encode s.keys (output_claims s r request) r.signed_at ≡ err x)))

  -- The counters after an exchange by its result, and the cause of the result where it is an error.
  -- One counter beside that of the requests moves: of a replay it is `replayed` and not `denied`.
  abbrev pub Counted :
      State BrowserHop1Metrics W
      → Result Text BrowserHop1ExchangeError
      → BrowserHop1Metrics
      → Type 0
  Counted before (ok token) after = after ≡ record {
    requests = bump before.metrics.requests;
    issued = bump before.metrics.issued;
    denied = before.metrics.denied;
    replayed = before.metrics.replayed;
    errors = before.metrics.errors;
  }
  Counted before (err BrowserHop1ExchangeError.unauthorized) after =
      (Denied before
        × (after ≡ record {
          requests = bump before.metrics.requests;
          issued = before.metrics.issued;
          denied = bump before.metrics.denied;
          replayed = before.metrics.replayed;
          errors = before.metrics.errors;
        }))
      ⊎ (Reused before
          × (after ≡ record {
            requests = bump before.metrics.requests;
            issued = before.metrics.issued;
            denied = before.metrics.denied;
            replayed = bump before.metrics.replayed;
            errors = before.metrics.errors;
          }))
  Counted before (err BrowserHop1ExchangeError.unavailable) after =
      Failed before
      × (after ≡ record {
        requests = bump before.metrics.requests;
        issued = before.metrics.issued;
        denied = before.metrics.denied;
        replayed = before.metrics.replayed;
        errors = bump before.metrics.errors;
      })

  -- Each exchange counts one request and the one outcome that its cause calls for, and leaves the
  -- other counters as they are; its error is the one that the cause calls for.
  pub exchange-reckons :
      (before : State BrowserHop1Metrics W)
      → Counted before
          (exchange s r username assertion before).0
          (exchange s r username assertion before).1.metrics
  unfolding exchange
  exchange-reckons before = elim (Result-cases (authorize s.policy username)) [
    | inr (x, e) ↦ rw e (inl (inl (x, e), refl))
    | inl (caller, e) ↦ elim (Bool-cases (has_issuer_role caller)) [
      | inr f ↦ rw (e, f) (inl (inr (caller, e, inl f), refl))
      | inl f ↦ elim (Result-cases (s.verify assertion before.world).0) [
        | inr (invalid, g) ↦ rw (e, f, g) (inl (inr (caller, e, inr (f, g)), refl))
        | inl (request, g) ↦
            elim (Result-cases
              (s.ledger.use_once (replay_key request) request.exp
                (s.verify assertion before.world).1).0) [
                  | inr (replayed, h) ↦
                      rw (e, f, g, h) (inr ((caller, request, (e, f, g, h)), refl))
                  | inr (unavailable, h) ↦
                      rw (e, f, g, h)
                        ((caller, request, inl (unavailable, (λ p. cc), (e, f, g, h))), refl)
                  | inr (configuration why, h) ↦
                      rw (e, f, g, h)
                        ((caller, request, inl (configuration why, (λ p. cc), (e, f, g, h))), refl)
                  | inl (_, h) ↦
                      elim (Result-cases
                        (sign_at "" s.encode s.keys (output_claims s r request) r.signed_at)) [
                          | inr (x, i) ↦
                              rw (e, f, g, h, i) ((caller, request, inr (x, (e, f, g, h), i)), refl)
                          | inl (token, i) ↦ rw (e, f, g, h, i) refl
                        ]
                ]
      ]
    ]
  ]

  -- A token is issued only as `Attested` says.
  pub exchange-attests :
      (before : State BrowserHop1Metrics W)
      → Attested before
          (exchange s r username assertion before).0
          (exchange s r username assertion before).1.world
  unfolding exchange
  exchange-attests before = elim (Result-cases (authorize s.policy username)) [
    | inr (x, e) ↦ rw e tt
    | inl (caller, e) ↦ elim (Bool-cases (has_issuer_role caller)) [
      | inr f ↦ rw (e, f) tt
      | inl f ↦ elim (Result-cases (s.verify assertion before.world).0) [
        | inr (invalid, g) ↦ rw (e, f, g) tt
        | inl (request, g) ↦
            elim (Result-cases
              (s.ledger.use_once (replay_key request) request.exp
                (s.verify assertion before.world).1).0) [
                  | inr (replayed, h) ↦ rw (e, f, g, h) tt
                  | inr (unavailable, h) ↦ rw (e, f, g, h) tt
                  | inr (configuration _, h) ↦ rw (e, f, g, h) tt
                  | inl (_, h) ↦
                      elim (Result-cases
                        (sign_at "" s.encode s.keys (output_claims s r request) r.signed_at)) [
                          | inr (x, i) ↦ rw (e, f, g, h, i) tt
                          | inl (token, i) ↦
                              let (inside, key, found, made) =
                                sign_at-inversion "" s.encode s.keys (output_claims s r request)
                                  r.signed_at i in
                              rw (e, f, g, h, i)
                                (caller, request, key, e, f, g, pair h, inside, found, made)
                        ]
                ]
      ]
    ]
  ]
    where
      pair : {A B : Type 0} {p : A × B} {a : A} → p.0 ≡ a → p ≡ (a, p.1)
      pair e = cc
