-- ===== src/Service/Replicas.antt =====
-- src/service.rs over src/github.rs and src/replay.rs: runs of exchanges by any number of replicas,
-- exchange after exchange, as src/main.rs puts the parts together.
use github_oidc_exchange.Prelude.{
  ℕ, ◌+◌, Bool, false, ◌&&◌, List, [], ◌∷◌, Option, none, some, Result, ok, err, ◌==◌, nat_eq,
  list_eq, if◌then◌else◌, is_ok, filter_map,
}
use github_oidc_exchange.Prelude.Int.{ℤ}
use github_oidc_exchange.Text.{Text}
use github_oidc_exchange.Exchange.{Readings, State}
use github_oidc_exchange.Keys.{KeyRing}
use github_oidc_exchange.Policy.{Policy, Identity, PolicyError}
use github_oidc_exchange.Policy.Authorize.{authorize}
use github_oidc_exchange.Github.{GitHubClaims, VerifyError}
use github_oidc_exchange.Github.Cache.{Outside, GitHubVerifier, Keys}
use github_oidc_exchange.Github.Verify
use github_oidc_exchange.Github.Verify.{Jwt}
use github_oidc_exchange.Service.{Metrics, ExchangeError, OutputClaims, ExchangeService}
use github_oidc_exchange.Service.Exchange.{exchange}
use github_oidc_exchange.Replay.{ReplayError, DateTime}
use github_oidc_exchange.Replay.Ledger.{Environment, Ledger, ReadinessCache, use_once}
use github_oidc_exchange.Replay.Runs.{Call}

-- One exchange: what it is asked, the readings of the clock, and the state of the replica.
pub record Request (W K : Type 0) : Type 0 where
  pub assertion : Text
  pub readings : Readings
  pub now : DateTime
  pub metrics : Metrics
  pub verifier : Keys W K
  pub cleanup_continue : Option Text
  pub readiness : ReadinessCache

-- What every replica is started with.
pub record Deployment (W K J P S : Type 0) : Type 0 where
  pub outside : Outside W K J
  pub verifier : GitHubVerifier
  pub jwt : Jwt K
  pub environment : Environment S
  pub policy : Policy
  pub keys : KeyRing P
  pub issuer : Text
  pub output_audience : Text
  pub token_ttl : ℕ
  pub encode : Text → P → OutputClaims → Option Text

module _ {W K J P S : Type 0} (d : Deployment W K J P S) where
  abbrev verify_beside :
      Text → Keys W K × Ledger S → Result GitHubClaims VerifyError × (Keys W K × Ledger S)
  verify_beside assertion (keys, ledger) =
      let r = Verify.verify d.outside d.verifier d.jwt assertion keys in (r.0, (r.1, ledger))

  abbrev spend_beside :
      DateTime
      → Text
      → ℤ
      → Keys W K × Ledger S
      → Result (Unit {0}) ReplayError × (Keys W K × Ledger S)
  spend_beside now jti expires_at (keys, ledger) =
      let r = use_once d.environment now jti expires_at ledger in (r.0, (keys, r.1))

  -- The service of a replica; `now` is the ledger's reading of the clock.
  abbrev pub service : DateTime → ExchangeService (Keys W K × Ledger S) P
  service now = record {
    verify = verify_beside;
    policy = d.policy;
    ledger = record { use_once = spend_beside now };
    keys = d.keys;
    issuer = d.issuer;
    output_audience = d.output_audience;
    token_ttl = d.token_ttl;
    encode = d.encode;
  }

  abbrev pub ledger_of : Request W K → S → Ledger S
  ledger_of q s = record { api = s; cleanup_continue = q.cleanup_continue; readiness = q.readiness }

  abbrev pub start : Request W K → S → State Metrics (Keys W K × Ledger S)
  start q s = record { metrics = q.metrics; world = (q.verifier, ledger_of q s) }

  abbrev pub serve :
      Request W K → S → Result Text ExchangeError × State Metrics (Keys W K × Ledger S)
  serve q s = exchange (service q.now) q.readings q.assertion (start q s)

  abbrev pub records_after : Request W K → S → S
  records_after q s = (serve q s).1.world.1.api

  abbrev call_if : Request W K → GitHubClaims → Result Identity PolicyError → Option Call
  call_if q claims (err x) = none
  call_if q claims (ok identity) = some (record {
    now = q.now;
    jti = claims.jti;
    expires_at = claims.exp;
    cleanup_continue = q.cleanup_continue;
    readiness = q.readiness;
  })

  abbrev pub call_of : Request W K → Result GitHubClaims VerifyError → Option Call
  call_of q (err x) = none
  call_of q (ok claims) = call_if q claims (authorize d.policy claims)

  -- The call of the ledger that the exchange makes, where it comes to that.
  abbrev pub ledger_call : Request W K → Option Call
  ledger_call q = call_of q (Verify.verify d.outside d.verifier d.jwt q.assertion q.verifier).0

  abbrev is_for : Text → Result GitHubClaims VerifyError → Bool
  is_for jti (ok claims) = claims.jti == jti
  is_for jti (err x) = false

  -- The exchange's assertion verifies and has that `jti`.
  abbrev pub asserts : Text → Request W K → Bool
  asserts jti q = is_for jti (Verify.verify d.outside d.verifier d.jwt q.assertion q.verifier).0

  -- How many tokens are issued for `jti`.
  unfoldable pub tokens : Text → List (Request W K) → S → ℕ
  tokens jti [] s = 0
  tokens jti (q ∷ requests) s =
      (if asserts jti q && is_ok (serve q s).0 then 1 else 0)
      + tokens jti requests (records_after q s)

  -- The calls of the ledger that a run of exchanges makes.
  abbrev pub ledger_calls : List (Request W K) → List Call
  ledger_calls requests = filter_map ledger_call requests
