-- ===== src/Service/Once.antt =====
-- src/service.rs over src/github.rs and src/replay.rs: a run of exchanges issues at most
-- one token for an assertion.
use github_oidc_exchange.Prelude.{
  ℕ, ◌≤◌, ◌≡◌, refl, subst, inl, inr, ◌&&◌, List, [], ◌∷◌, Option, none, some, arith, Result-cases,
  ◌==◌, nat_eq, list_eq, if◌then◌else◌, is_ok, All, filter_map, cons_some,
}
use github_oidc_exchange.Prelude.Int.{ℤ}
use github_oidc_exchange.Text.{Text}
use github_oidc_exchange.Keys.{sign_at}
use github_oidc_exchange.Policy.Authorize.{authorize}
use github_oidc_exchange.Github.{VerifyError}
use github_oidc_exchange.Github.Verify
use github_oidc_exchange.Github.Verify.{Jwt}
use github_oidc_exchange.Service.Exchange.{exchange, output_claims}
use github_oidc_exchange.Service.Replicas.{
  Request, Deployment, service, serve, records_after, call_of, ledger_of, ledger_call, ledger_calls,
  asserts, tokens,
}
use github_oidc_exchange.Replay.{replayed, unavailable, configuration, ChronoLaws, Lease}
use github_oidc_exchange.Replay.Ledger.{use_once}
use github_oidc_exchange.Replay.Store.{StoreLaws}
use github_oidc_exchange.Replay.Runs.{Call, call, successes, InTime, successes-le_one}

module _ {W K J P S : Type 0} (d : Deployment W K J P S) where
  abbrev after_call : Option Call → S → S
  after_call none s = s
  after_call (some c) s = (call d.environment c s).1.api

  abbrev succeeds_for : Text → Option Call → S → ℕ
  succeeds_for jti none s = 0
  succeeds_for jti (some c) s = if c.jti == jti && is_ok (call d.environment c s).0 then 1 else 0

  -- An exchange writes the records by its one call of the ledger only, and issues a token only where
  -- that succeeds.
  abbrev pub CallsOnce : Text → Request W K → S → Type 0
  CallsOnce jti q s =
      (records_after d q s ≡ after_call (ledger_call d q) s)
      × ((if asserts d jti q && is_ok (serve d q s).0 then 1 else 0)
          ≤ succeeds_for jti (ledger_call d q) s)

  serve-CallsOnce : (jti : Text) (q : Request W K) (s : S) → CallsOnce jti q s
  unfolding exchange
  serve-CallsOnce jti q s =
      elim (Result-cases (Verify.verify d.outside d.verifier d.jwt q.assertion q.verifier).0) [
        | inr (VerifyError.invalid, e) ↦
            rw (records_after, ledger_call, call_of, e) (refl, omega arith)
        | inr (VerifyError.keys_unavailable _ _, e) ↦
            rw (records_after, ledger_call, call_of, e) (refl, omega arith)
        | inl (claims, e) ↦ elim (Result-cases (authorize d.policy claims)) [
          | inr (x, f) ↦ rw (records_after, ledger_call, call_of, e, f) (refl, ground arith)
          | inl (identity, f) ↦
              elim (Result-cases
                (use_once d.environment q.now claims.jti claims.exp (ledger_of d q s)).0) [
                  | inr (replayed, g) ↦
                      rw (records_after, ledger_call, call_of, e, f, g) (refl, ground arith)
                  | inr (unavailable, g) ↦
                      rw (records_after, ledger_call, call_of, e, f, g) (refl, ground arith)
                  | inr (configuration _, g) ↦
                      rw (records_after, ledger_call, call_of, e, f, g) (refl, ground arith)
                  | inl (_, g) ↦
                      elim (Result-cases (
                        sign_at "" d.encode d.keys
                          (output_claims (service d q.now) q.readings claims identity)
                          q.readings.signed_at)) [
                            | inr (x, h) ↦
                                rw (records_after, ledger_call, call_of, e, f, g, h)
                                  (refl, ground arith)
                            | inl (token, h) ↦
                                rw (records_after, ledger_call, call_of, e, f, g, h)
                                  (refl, ground arith)
                          ]
                ]
        ]
      ]

  -- A run of exchanges issues no more tokens for a `jti` than its calls of the ledger succeed.
  pub tokens-le_successes :
      (jti : Text) (requests : List (Request W K)) (s : S)
      → tokens d jti requests s ≤ successes d.environment jti (ledger_calls d requests) s
  unfolding tokens successes filter_map
  tokens-le_successes jti [] s = omega arith
  tokens-le_successes jti (q ∷ requests) s =
      let (written, counted) = serve-CallsOnce jti q s in
      one (ledger_call d q) counted (
        subst
          (λ t.
            tokens d jti requests (records_after d q s)
            ≤ successes d.environment jti (ledger_calls d requests) t)
          written (tokens-le_successes jti requests (records_after d q s)))
    where
      one :
          (c : Option Call)
          → (if asserts d jti q && is_ok (serve d q s).0 then 1 else 0) ≤ succeeds_for jti c s
          → tokens d jti requests (records_after d q s)
            ≤ successes d.environment jti (ledger_calls d requests) (after_call c s)
          → tokens d jti (q ∷ requests) s
            ≤ successes d.environment jti (cons_some c (ledger_calls d requests)) s
      one none counted rest = omega (arith, counted, rest)
      one (some c) counted rest = omega (arith, counted, rest)

  -- Whatever replicas serve the exchanges and in whatever order, at most one token is issued for an
  -- assertion, as long as no exchange that verifies and is authorized comes later than 298 seconds
  -- after the assertion's expiry, and all of them for the assertion give that expiry.
  pub tokens-le_one :
      (view : S → Text → Option Lease) (laws : StoreLaws d.environment view) (jti : Text)
      (expires_at : ℤ)
      → ChronoLaws d.environment.chrono
      → (requests : List (Request W K)) (s : S)
      → All (InTime jti expires_at) (ledger_calls d requests)
      → tokens d jti requests s ≤ 1
  tokens-le_one view laws jti expires_at clock requests s h = omega (
    arith,
    tokens-le_successes jti requests s,
    successes-le_one d.environment view laws jti expires_at clock (ledger_calls d requests) s h,
  )
