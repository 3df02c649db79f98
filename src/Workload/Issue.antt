-- ===== src/Workload/Issue.antt =====
-- src/workload.rs: what the last part of an exchange counts, and when it issues a token for a task.
use github_oidc_exchange.Prelude.{
  ◌≡◌, ◌≢◌, ◌⊎◌, refl, Bool, true, false, not, ◌||◌, get, nat_eq, list_eq, Option, none, some, inl,
  inr, Result, ok, err, arith, Result-cases, Option-cases, Bool-cases,
}
use github_oidc_exchange.Prelude.Int.{leb_ℤ, ◌<ℤ◌}
use github_oidc_exchange.Effects.{bump, as_i64}
use github_oidc_exchange.Text.{Text}
use github_oidc_exchange.Replay.{ReplayError, replayed, unavailable, configuration}
use github_oidc_exchange.Exchange.{Readings, State}
use github_oidc_exchange.Keys.{KeyError, sign_at, in_window}
use github_oidc_exchange.Keys.Windows.{sign_at-inversion}
use github_oidc_exchange.Workload.{WorkloadIdentity, WorkloadTaskBinding, ProjectedTokenClaims}
use github_oidc_exchange.Workload.Identities.{bounded_non_whitespace}
use github_oidc_exchange.Workload.Service.{
  WorkloadMetrics, WorkloadExchangeError, WorkloadExchangeService, task_claims, workload_claims,
  issue,
}

module _ {W R K : Type 0} (s : WorkloadExchangeService W R K) (r : Readings)
    (assertion : Text) where
  abbrev stale : ProjectedTokenClaims → Bool
  stale claims = not (bounded_non_whitespace claims.jti 128) || leb_ℤ claims.exp (as_i64 r.now)

  abbrev signed : WorkloadIdentity → Result Text KeyError
  signed identity = sign_at "RSA " s.encode s.keys (workload_claims s r identity) r.signed_at

  abbrev signed_task : WorkloadIdentity → WorkloadTaskBinding → Result Text KeyError
  signed_task identity task =
      sign_at "" s.encode_task s.task_keys (task_claims s r identity task) r.signed_at

  abbrev ledgered : ProjectedTokenClaims → W → Result (Unit {0}) ReplayError
  ledgered claims w = (s.ledger.use_once claims.jti claims.exp w).0

  -- The assertion's own claims cannot be read or are over, or the ledger holds them already.
  abbrev pub Refused : Option WorkloadTaskBinding → W → Type 0
  Refused none w = ⊥
  Refused (some task) w =
      (s.insecure_decode assertion ≡ none)
      ⊎ ((claims : ProjectedTokenClaims) × (s.insecure_decode assertion ≡ some claims)
          × ((stale claims ≡ true) ⊎ ((stale claims ≡ false) × (ledgered claims w ≡ err replayed))))

  -- No token can be signed, or the ledger fails.
  abbrev pub Broken : WorkloadIdentity → Option WorkloadTaskBinding → W → Type 0
  Broken identity none w = (x : KeyError) × (signed identity ≡ err x)
  Broken identity (some task) w =
      (claims : ProjectedTokenClaims) × (s.insecure_decode assertion ≡ some claims)
      × (stale claims ≡ false)
      × (((x : ReplayError) × (x ≢ replayed) × (ledgered claims w ≡ err x))
          ⊎ ((x : KeyError) × (ledgered claims w ≡ ok tt) × (signed_task identity task ≡ err x)))

  -- What `issue` makes of the counters `m`, by its result, and why.
  abbrev pub Outcome :
      WorkloadIdentity
      → Option WorkloadTaskBinding
      → State WorkloadMetrics W
      → Result Text WorkloadExchangeError
      → WorkloadMetrics
      → Type 0
  Outcome identity task before (ok token) after = after ≡ before.metrics
  Outcome identity task before (err WorkloadExchangeError.unauthorized) after =
      Refused task before.world
      × (after ≡ record before.metrics { denied = bump before.metrics.denied })
  Outcome identity task before (err WorkloadExchangeError.unavailable) after =
      Broken identity task before.world
      × (after ≡ record before.metrics { errors = bump before.metrics.errors })

  pub issue-Outcome :
      (identity : WorkloadIdentity) (task : Option WorkloadTaskBinding)
      (before : State WorkloadMetrics W)
      → Outcome identity task before
          (issue s r assertion identity task before).0
          (issue s r assertion identity task before).1.metrics
  unfolding issue
  issue-Outcome identity none before = elim (Result-cases (signed identity)) [
    | inr (x, h) ↦ rw h ((x, h), refl)
    | inl (token, h) ↦ rw h refl
  ]
  issue-Outcome identity (some task) before = elim (Option-cases (s.insecure_decode assertion)) [
    | inl e ↦ rw e (inl e, refl)
    | inr (claims, e) ↦ elim (Bool-cases (stale claims)) [
      | inl f ↦ rw (e, f) (inr (claims, e, inl f), refl)
      | inr f ↦ elim (Result-cases (ledgered claims before.world)) [
        | inr (replayed, g) ↦ rw (e, f, g) (inr (claims, e, inr (f, g)), refl)
        | inr (unavailable, g) ↦
            rw (e, f, g) ((claims, e, f, inl (unavailable, (λ p. cc), g)), refl)
        | inr (configuration why, g) ↦
            rw (e, f, g) ((claims, e, f, inl (configuration why, (λ p. cc), g)), refl)
        | inl (_, g) ↦ elim (Result-cases (signed_task identity task)) [
          | inr (x, h) ↦ rw (e, f, g, h) ((claims, e, f, inr (x, g, h)), refl)
          | inl (token, h) ↦ rw (e, f, g, h) refl
        ]
      ]
    ]
  ]

  -- What `issue` has done where it gives a token for a task.
  abbrev pub Spent : WorkloadIdentity → WorkloadTaskBinding → Text → W → W → Type 0
  Spent identity task token before after =
      (claims : ProjectedTokenClaims) × (key : K) × (s.insecure_decode assertion ≡ some claims)
      × (as_i64 r.now <ℤ claims.exp)
      × (s.ledger.use_once claims.jti claims.exp before ≡ (ok tt, after))
      × (in_window s.task_keys.current_not_before s.task_keys.current_not_after r.signed_at ≡ true)
      × (get s.task_keys.keys s.task_keys.current_kid ≡ some key)
      × (s.encode_task s.task_keys.current_kid key (task_claims s r identity task) ≡ some token)

  pub issue-Spent :
      (identity : WorkloadIdentity) (task : WorkloadTaskBinding) (before : State WorkloadMetrics W)
      {token : Text}
      → (issue s r assertion identity (some task) before).0 ≡ ok token
      → Spent identity task token before.world
          (issue s r assertion identity (some task) before).1.world
  unfolding issue
  issue-Spent identity task before {token} = elim (Option-cases (s.insecure_decode assertion)) [
    | inl e ↦ rw e (λ p. cc)
    | inr (claims, e) ↦ elim (Bool-cases (stale claims)) [
      | inl f ↦ rw (e, f) (λ p. cc)
      | inr f ↦ elim (Result-cases (s.ledger.use_once claims.jti claims.exp before.world).0) [
        | inr (replayed, g) ↦ rw (e, f, g) (λ p. cc)
        | inr (unavailable, g) ↦ rw (e, f, g) (λ p. cc)
        | inr (configuration _, g) ↦ rw (e, f, g) (λ p. cc)
        | inl (_, g) ↦ elim (Result-cases (signed_task identity task)) [
          | inr (x, h) ↦ rw (e, f, g, h) (λ p. cc)
          | inl (made, h) ↦
              rw (e, f, g, h)
                (λ p.
                  let (inside, key, found, encoded) =
                    sign_at-inversion "" s.encode_task s.task_keys (task_claims s r identity task)
                      r.signed_at (relabel h p) in
                  (claims, key, refl, later claims f, pair g, inside, found, encoded))
        ]
      ]
    ]
  ]
    where
      pair : {A B : Type 0} {p : A × B} {a : A} → p.0 ≡ a → p ≡ (a, p.1)
      pair e = cc

      later : (claims : ProjectedTokenClaims) → stale claims ≡ false → as_i64 r.now <ℤ claims.exp
      later claims f = ground arith

      relabel :
          {result : Result Text KeyError} {a b : Text}
          → result ≡ ok a
          → ◌≡◌ {A = Result Text WorkloadExchangeError} (ok a) (ok b)
          → result ≡ ok b
      relabel h p = cc
