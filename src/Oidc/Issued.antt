-- ===== src/Oidc/Issued.antt =====
-- src/oidc.rs: what an exchange counts, and what a token that it issues says.
use github_oidc_exchange.Prelude.{
  ◌≡◌, ◌≢◌, refl, true, Option, none, get, nat_eq, list_eq, some, ◌⊎◌, inl, inr, Result, ok, err,
  Result-cases, Option-cases,
}
use github_oidc_exchange.Text.{Text}
use github_oidc_exchange.Replay.{ReplayError, replayed, unavailable, configuration}
use github_oidc_exchange.Effects.{bump}
use github_oidc_exchange.Exchange.{Readings, State}
use github_oidc_exchange.Keys.{KeyError, sign_at, in_window}
use github_oidc_exchange.Keys.Windows.{sign_at-inversion}
use github_oidc_exchange.Workload.{WorkloadTaskBinding}
use github_oidc_exchange.Oidc.{OidcClaims, OidcVerifyError, OidcPolicyError}
use github_oidc_exchange.Oidc.Policy.{authorize}
use github_oidc_exchange.Oidc.Identifiers.{replay_identifier}
use github_oidc_exchange.Oidc.Service.{
  OidcMetrics, OidcExchangeError, OidcExchangeService, output_claims, exchange,
}

module _ {W K : Type 0} (s : OidcExchangeService W K) (r : Readings) (assertion : Text) where
  abbrev verified : State OidcMetrics W → W
  verified before = (s.verify assertion before.world).1

  abbrev ledgered : OidcClaims → Text → State OidcMetrics W → Result (Unit {0}) ReplayError
  ledgered claims replay before = (s.ledger.use_once replay claims.expires_at (verified before)).0

  abbrev signed : OidcClaims → WorkloadTaskBinding → Result Text KeyError
  signed claims task = sign_at "" s.encode s.keys (output_claims s r claims task) r.signed_at

  -- The assertion verifies, the policy authorizes it for the task, and this is its replay identifier.
  abbrev Admitted : State OidcMetrics W → OidcClaims → WorkloadTaskBinding → Option Text → Type 0
  Admitted before claims task replay =
      ((s.verify assertion before.world).0 ≡ ok claims)
      × (authorize s.policy claims ≡ ok task)
      × (replay_identifier s.sha256 claims ≡ replay)

  -- The assertion does not verify, the policy refuses it, or it has no replay identifier.
  abbrev Denied : State OidcMetrics W → Type 0
  Denied before =
      ((s.verify assertion before.world).0 ≡ err OidcVerifyError.invalid)
      ⊎ ((claims : OidcClaims) × (((x : OidcPolicyError) × ((s.verify assertion before.world).0
                ≡ ok claims)
              × (authorize s.policy claims ≡ err x))
            ⊎ ((task : WorkloadTaskBinding) × Admitted before claims task none)))

  -- The ledger holds the replay identifier already.
  abbrev Reused : State OidcMetrics W → Type 0
  Reused before =
      (claims : OidcClaims) × (task : WorkloadTaskBinding) × (replay : Text) × Admitted before
        claims task (some replay)
      × (ledgered claims replay before ≡ err replayed)

  -- The provider's keys are unavailable, the ledger fails, or no token can be signed.
  abbrev Failed : State OidcMetrics W → Type 0
  Failed before =
      ((s.verify assertion before.world).0 ≡ err OidcVerifyError.unavailable)
      ⊎ ((claims : OidcClaims) × (task : WorkloadTaskBinding) × (replay : Text) × Admitted before
            claims task (some replay)
          × (((x : ReplayError) × (x ≢ replayed) × (ledgered claims replay before ≡ err x))
              ⊎ ((x : KeyError) × (ledgered claims replay before ≡ ok tt)
                  × (signed claims task ≡ err x))))

  -- The counters after an exchange by its result, and the cause of the result where it is an error.
  -- A replay moves both `denied` and `replayed`.
  abbrev pub Counted : State OidcMetrics W → Result Text OidcExchangeError → OidcMetrics → Type 0
  Counted before (ok token) after = after ≡ record {
    requests = bump before.metrics.requests;
    issued = bump before.metrics.issued;
    denied = before.metrics.denied;
    replayed = before.metrics.replayed;
    errors = before.metrics.errors;
  }
  Counted before (err OidcExchangeError.unauthorized) after =
      (Denied before
        × (after ≡ record {
          requests = bump before.metrics.requests;
          issued = before.metrics.issued;
          denied = bump before.metrics.denied;
          replayed = before.metrics.replayed;
          errors = before.metrics.errors;
        }))
      ⊎ (Reused before
          × (after ≡ record {
            requests = bump before.metrics.requests;
            issued = before.metrics.issued;
            denied = bump before.metrics.denied;
            replayed = bump before.metrics.replayed;
            errors = before.metrics.errors;
          }))
  Counted before (err OidcExchangeError.unavailable) after =
      Failed before
      × (after ≡ record {
        requests = bump before.metrics.requests;
        issued = before.metrics.issued;
        denied = before.metrics.denied;
        replayed = before.metrics.replayed;
        errors = bump before.metrics.errors;
      })

  -- Each exchange counts one request and the outcome that its cause calls for, a replay as both
  -- denied and replayed, and leaves the other counters as they are; its error is the one that the
  -- cause calls for.
  pub exchange-counts :
      (before : State OidcMetrics W)
      → Counted before (exchange s r assertion before).0 (exchange s r assertion before).1.metrics
  unfolding exchange
  exchange-counts before = elim (Result-cases (s.verify assertion before.world).0) [
    | inr (OidcVerifyError.invalid, e) ↦ rw e (inl (inl e, refl))
    | inr (OidcVerifyError.unavailable, e) ↦ rw e (inl e, refl)
    | inl (claims, e) ↦ elim (Result-cases (authorize s.policy claims)) [
      | inr (x, f) ↦ rw (e, f) (inl (inr (claims, inl (x, e, f)), refl))
      | inl (task, f) ↦ elim (Option-cases (replay_identifier s.sha256 claims)) [
        | inl i ↦ rw (e, f, i) (inl (inr (claims, inr (task, (e, f, i))), refl))
        | inr (replay, i) ↦ elim (Result-cases (ledgered claims replay before)) [
          | inr (replayed, g) ↦ rw (e, f, i, g) (inr ((claims, task, replay, (e, f, i), g), refl))
          | inr (unavailable, g) ↦
              rw (e, f, i, g)
                (inr (claims, task, replay, (e, f, i), inl (unavailable, (λ p. cc), g)), refl)
          | inr (configuration why, g) ↦
              rw (e, f, i, g)
                (inr (claims, task, replay, (e, f, i), inl (configuration why, (λ p. cc), g)), refl)
          | inl (_, g) ↦ elim (Result-cases (signed claims task)) [
            | inr (x, h) ↦
                rw (e, f, i, g, h) (inr (claims, task, replay, (e, f, i), inr (x, g, h)), refl)
            | inl (token, h) ↦ rw (e, f, i, g, h) refl
          ]
        ]
      ]
    ]
  ]

  -- A token is issued only for an assertion that verifies, that the policy authorizes for a task and
  -- whose replay identifier the ledger takes for unused; it is then the current key's token, within
  -- that key's window, of the claims made of the assertion and of the task.
  pub exchange-issues :
      (before : State OidcMetrics W) {token : Text}
      → (exchange s r assertion before).0 ≡ ok token
      → (claims : OidcClaims) × (task : WorkloadTaskBinding) × (replay : Text) × (key : K)
        × ((s.verify assertion before.world).0 ≡ ok claims)
        × (authorize s.policy claims ≡ ok task)
        × (replay_identifier s.sha256 claims ≡ some replay)
        × (s.ledger.use_once replay claims.expires_at (verified before)
            ≡ (ok tt, (exchange s r assertion before).1.world))
        × (in_window s.keys.current_not_before s.keys.current_not_after r.signed_at ≡ true)
        × (get s.keys.keys s.keys.current_kid ≡ some key)
        × (s.encode s.keys.current_kid key (output_claims s r claims task) ≡ some token)
  unfolding exchange
  exchange-issues before {token} = elim (Result-cases (s.verify assertion before.world).0) [
    | inr (OidcVerifyError.invalid, e) ↦ rw e (λ p. cc)
    | inr (OidcVerifyError.unavailable, e) ↦ rw e (λ p. cc)
    | inl (claims, e) ↦ elim (Result-cases (authorize s.policy claims)) [
      | inr (x, f) ↦ rw (e, f) (λ p. cc)
      | inl (task, f) ↦ elim (Option-cases (replay_identifier s.sha256 claims)) [
        | inl i ↦ rw (e, f, i) (λ p. cc)
        | inr (replay, i) ↦ elim (Result-cases (ledgered claims replay before)) [
          | inr (replayed, g) ↦ rw (e, f, i, g) (λ p. cc)
          | inr (unavailable, g) ↦ rw (e, f, i, g) (λ p. cc)
          | inr (configuration _, g) ↦ rw (e, f, i, g) (λ p. cc)
          | inl (_, g) ↦ elim (Result-cases (signed claims task)) [
            | inr (x, h) ↦ rw (e, f, i, g, h) (λ p. cc)
            | inl (made, h) ↦
                rw (e, f, i, g, h)
                  (λ p.
                    let (inside, key, found, encoded) =
                      sign_at-inversion "" s.encode s.keys (output_claims s r claims task)
                        r.signed_at (relabel h p) in
                    (claims, task, replay, key, refl, f, i, pair g, inside, found, encoded))
          ]
        ]
      ]
    ]
  ]
    where
      pair : {A B : Type 0} {p : A × B} {a : A} → p.0 ≡ a → p ≡ (a, p.1)
      pair e = cc

      relabel :
          {result : Result Text KeyError} {a b : Text}
          → result ≡ ok a
          → ◌≡◌ {A = Result Text OidcExchangeError} (ok a) (ok b)
          → result ≡ ok b
      relabel h p = cc
