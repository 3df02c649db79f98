-- ===== src/Browser/Service.antt =====
-- src/browser_hop1.rs: `BrowserHop1ExchangeService::exchange`. The log events are left out.
use github_oidc_exchange.Prelude.{
  ℕ, ◌-◌, Bool, true, false, List, [], ◌∷◌, ◌++◌, Option, Result, any, ◌==◌, nat_eq, list_eq,
}
use github_oidc_exchange.Contract.{identity_browser_hop1_contract}
use github_oidc_exchange.Text.{Text, text}
use github_oidc_exchange.Effects.{M, ◌>>=◌, ◌>>◌, return, from_result, catch, add_u64, bump}
use github_oidc_exchange.Replay.{ReplayError}
use github_oidc_exchange.Exchange.{ReplayLedger, Readings, State, on_world, count, refuse}
use github_oidc_exchange.Keys.{KeyRing, KeyError, sign_at}
use github_oidc_exchange.Workload.{WorkloadPolicy, WorkloadPolicyError, WorkloadIdentity}
use github_oidc_exchange.Workload.Identities.{authorize}
use github_oidc_exchange.Browser.{
  BrowserHop1RequestClaims, BrowserHop1VerifierError, BrowserHop1Operation,
  browser_hop1_issuer_role, clock_skew_seconds,
}

pub record BrowserHop1Metrics : Type 0 where
  pub requests : ℕ
  pub issued : ℕ
  pub denied : ℕ
  pub replayed : ℕ
  pub errors : ℕ

pub data BrowserHop1ExchangeError : Type 0 where
  unauthorized unavailable : BrowserHop1ExchangeError

pub record BrowserHop1OutputClaims : Type 0 where
  pub iss : Text
  pub sub : Text
  pub aud : List Text
  pub exp : ℕ
  pub iat : ℕ
  pub nbf : ℕ
  pub jti : Text
  pub email : Text
  pub email_verified : Bool
  pub operation : BrowserHop1Operation
  pub operation_id : Text
  pub identity_contract : Text

-- `verify` is the verifier's, at the reading of the clock that it takes.
pub record BrowserHop1ExchangeService (W K : Type 0) : Type 0 where
  pub verify : Text → W → Result BrowserHop1RequestClaims BrowserHop1VerifierError × W
  pub policy : WorkloadPolicy
  pub ledger : ReplayLedger W
  pub keys : KeyRing K
  pub issuer : Text
  pub output_audience : Text
  pub token_ttl : ℕ
  pub encode : Text → K → BrowserHop1OutputClaims → Option Text

abbrev pub count_request : BrowserHop1Metrics → BrowserHop1Metrics
count_request m = record m { requests = bump m.requests }

abbrev pub count_issued : BrowserHop1Metrics → BrowserHop1Metrics
count_issued m = record m { issued = bump m.issued }

abbrev pub count_denied : BrowserHop1Metrics → BrowserHop1Metrics
count_denied m = record m { denied = bump m.denied }

abbrev pub count_replayed : BrowserHop1Metrics → BrowserHop1Metrics
count_replayed m = record m { replayed = bump m.replayed }

abbrev pub count_error : BrowserHop1Metrics → BrowserHop1Metrics
count_error m = record m { errors = bump m.errors }

abbrev pub has_issuer_role : WorkloadIdentity → Bool
has_issuer_role caller = any (λ role. role == browser_hop1_issuer_role) caller.roles

abbrev pub replay_key : BrowserHop1RequestClaims → Text
replay_key request = text "browser-hop1:" ++ request.jti

module _ {W K : Type 0} (s : BrowserHop1ExchangeService W K) (r : Readings) where
  abbrev X : Type 0 → Type 0
  X A = M (State BrowserHop1Metrics W) BrowserHop1ExchangeError A

  abbrev deny : {A : Type 0} → X A
  deny = refuse count_denied BrowserHop1ExchangeError.unauthorized

  abbrev fail : {A : Type 0} → X A
  fail = refuse count_error BrowserHop1ExchangeError.unavailable

  abbrev replay_failed : ReplayError → X (Unit {0})
  replay_failed ReplayError.replayed = refuse count_replayed BrowserHop1ExchangeError.unauthorized
  replay_failed ReplayError.unavailable = fail
  replay_failed (ReplayError.configuration _) = fail

  abbrev unless : Bool → X (Unit {0})
  unless true = return tt
  unless false = deny

  unfoldable pub output_claims : BrowserHop1RequestClaims → BrowserHop1OutputClaims
  output_claims request = record {
    iss = s.issuer;
    sub = request.sub;
    aud = s.output_audience ∷ [];
    exp = add_u64 r.now s.token_ttl;
    iat = r.now;
    nbf = r.now - clock_skew_seconds;
    jti = r.token_id;
    email = request.email;
    email_verified = true;
    operation = request.operation;
    operation_id = request.operation_id;
    identity_contract = identity_browser_hop1_contract;
  }

  unfoldable pub exchange : Text → Text → X Text
  exchange workload_username assertion = do
    count count_request
    caller ←
        catch (from_result (authorize s.policy workload_username))
          (λ (_ : WorkloadPolicyError). deny)
    unless (has_issuer_role caller)
    request ← catch (on_world (s.verify assertion)) (λ (_ : BrowserHop1VerifierError). deny)
    catch (on_world (s.ledger.use_once (replay_key request) request.exp)) replay_failed
    token ←
        catch (from_result (sign_at "" s.encode s.keys (output_claims request) r.signed_at))
          (λ (_ : KeyError). fail)
    count count_issued
    return token
