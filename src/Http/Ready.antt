-- ===== src/Http/Ready.antt =====
-- src/http.rs: the two readiness handlers.
use github_oidc_exchange.Prelude.{
  List, [], ◌∷◌, ◌++◌, Bool, true, false, Option, none, some, Result, is_empty, is_ok,
  if◌then◌else◌,
}
use github_oidc_exchange.Text.{Text, text}
use github_oidc_exchange.Prelude.Int.{ℤ}
use github_oidc_exchange.Replay.{DateTime, ReplayError}
use github_oidc_exchange.Github.Cache.{Outside, GitHubVerifier, Keys, check_ready}
use github_oidc_exchange.Keys.{KeyRing, is_ready_at}
use github_oidc_exchange.Http.{Response, Body, status_only}

unfoldable pub readiness_response : List Text → Response
readiness_response failed_checks =
    if is_empty failed_checks
    then status_only 204
    else record { status = 503; cache_control = none; body = Body.not_ready failed_checks }

-- A name that is pushed where a check fails.
abbrev pub unless : Bool → Text → List Text
unless true name = []
unless false name = name ∷ []

-- `ledger_ready` is the trait's `check_ready`.
module _ {W K J L : Type 0} (num_seconds_since : DateTime → DateTime → ℤ) (o : Outside W K J)
    (p : GitHubVerifier) (ledger_ready : L → Result (Unit {0}) ReplayError × L) where
  abbrev pub ready_or_absent : {R : Type 0} → DateTime → Option (KeyRing R) → Bool
  ready_or_absent now none = true
  ready_or_absent now (some keys) = is_ready_at num_seconds_since keys now

  unfoldable pub readiness :
      {P R : Type 0}
      → KeyRing P
      → Option (KeyRing R)
      → DateTime
      → Keys W K × L
      → Response × (Keys W K × L)
  readiness keys workload_keys now (verifier, ledger) = (
    readiness_response (
        unless (is_ready_at num_seconds_since keys now) (text "github_signing_key")
        ++ (unless (is_ok (check_ready o p verifier).0) (text "github_jwks")
            ++ (unless (is_ok (ledger_ready ledger).0) (text "replay_ledger")
                ++ unless (ready_or_absent now workload_keys) (text "workload_signing_key")))),
    ((check_ready o p verifier).1, (ledger_ready ledger).1),
  )

  unfoldable pub workload_readiness :
      {R P B : Type 0} → KeyRing R → KeyRing P → Option (KeyRing B) → DateTime → L → Response × L
  workload_readiness keys task_keys browser_keys now ledger = (
    readiness_response (
        unless (is_ready_at num_seconds_since keys now) (text "workload_signing_key")
        ++ (unless (is_ready_at num_seconds_since task_keys now) (text "task_signing_key")
            ++ (unless (is_ok (ledger_ready ledger).0) (text "replay_ledger")
                ++ unless (ready_or_absent now browser_keys) (text "browser_signing_key")))),
    (ledger_ready ledger).1,
  )
