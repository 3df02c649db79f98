-- ===== src/Oidc/Service.antt =====
-- src/oidc.rs: `OidcExchangeService::exchange`. The log events are left out; `verify` is a field.
use github_oidc_exchange.Prelude.{ℕ, ◌-◌, Bool, true, List, [], ◌∷◌, Option, none, some, Result}
use github_oidc_exchange.Contract.{identity_contract_v2}
use github_oidc_exchange.Text.{Text}
use github_oidc_exchange.Effects.{M, ◌>>=◌, ◌>>◌, return, from_result, catch, add_u64, bump}
use github_oidc_exchange.Replay.{ReplayError}
use github_oidc_exchange.Exchange.{ReplayLedger, Readings, State, on_world, count, refuse}
use github_oidc_exchange.Keys.{KeyRing, KeyError, sign_at}
use github_oidc_exchange.Workload.{WorkloadTaskBinding}
use github_oidc_exchange.Workload.Service.{task_groups}
use github_oidc_exchange.Oidc.{OidcPolicy, OidcPolicyError, OidcClaims, OidcVerifyError}
use github_oidc_exchange.Oidc.Policy.{authorize}
use github_oidc_exchange.Oidc.Identifiers.{replay_identifier, provider_scoped_subject}

pub record OidcMetrics : Type 0 where
  pub requests : ℕ
  pub issued : ℕ
  pub denied : ℕ
  pub replayed : ℕ
  pub errors : ℕ

pub data OidcExchangeError : Type 0 where
  unauthorized unavailable : OidcExchangeError

pub record OidcTaskOutputClaims : Type 0 where
  pub iss : Text
  pub sub : Text
  pub aud : List Text
  pub exp : ℕ
  pub iat : ℕ
  pub nbf : ℕ
  pub jti : Text
  pub email : Text
  pub email_verified : Bool
  pub groups : List Text
  pub identity_contract : Text

-- `verify` is `OidcVerifierSet::verify`; `encode` and `sha256` are the libraries'.
pub record OidcExchangeService (W K : Type 0) : Type 0 where
  pub verify : Text → W → Result OidcClaims OidcVerifyError × W
  pub policy : OidcPolicy
  pub ledger : ReplayLedger W
  pub keys : KeyRing K
  pub issuer : Text
  pub output_audience : Text
  pub token_ttl : ℕ
  pub encode : Text → K → OidcTaskOutputClaims → Option Text
  pub sha256 : List ℕ → List ℕ

abbrev pub count_request : OidcMetrics → OidcMetrics
count_request m = record m { requests = bump m.requests }

abbrev pub count_issued : OidcMetrics → OidcMetrics
count_issued m = record m { issued = bump m.issued }

abbrev pub count_denied : OidcMetrics → OidcMetrics
count_denied m = record m { denied = bump m.denied }

abbrev pub count_replayed : OidcMetrics → OidcMetrics
count_replayed m = record m { replayed = bump m.replayed; denied = bump m.denied }

abbrev pub count_error : OidcMetrics → OidcMetrics
count_error m = record m { errors = bump m.errors }

module _ {W K : Type 0} (s : OidcExchangeService W K) (r : Readings) where
  abbrev X : Type 0 → Type 0
  X A = M (State OidcMetrics W) OidcExchangeError A

  abbrev deny : {A : Type 0} → X A
  deny = refuse count_denied unauthorized

  abbrev fail : {A : Type 0} → X A
  fail = refuse count_error unavailable

  abbrev verify_failed : OidcVerifyError → X OidcClaims
  verify_failed OidcVerifyError.invalid = deny
  verify_failed OidcVerifyError.unavailable = fail

  abbrev replay_failed : ReplayError → X (Unit {0})
  replay_failed ReplayError.replayed = refuse count_replayed unauthorized
  replay_failed ReplayError.unavailable = fail
  replay_failed (ReplayError.configuration _) = fail

  abbrev or_deny : {A : Type 0} → Option A → X A
  or_deny none = deny
  or_deny (some a) = return a

  unfoldable pub output_claims : OidcClaims → WorkloadTaskBinding → OidcTaskOutputClaims
  output_claims claims task = record {
    iss = s.issuer;
    sub = provider_scoped_subject s.sha256 claims;
    aud = s.output_audience ∷ [];
    exp = add_u64 r.now s.token_ttl;
    iat = r.now;
    nbf = r.now - 5;
    jti = r.token_id;
    email = task.owner_email;
    email_verified = true;
    groups = task_groups task;
    identity_contract = identity_contract_v2;
  }

  unfoldable pub exchange : Text → X Text
  exchange assertion = do
    count count_request
    claims ← catch (on_world (s.verify assertion)) verify_failed
    task ← catch (from_result (authorize s.policy claims)) (λ (_ : OidcPolicyError). deny)
    replay ← or_deny (replay_identifier s.sha256 claims)
    catch (on_world (s.ledger.use_once replay claims.expires_at)) replay_failed
    token ←
        catch (from_result (sign_at "" s.encode s.keys (output_claims claims task) r.signed_at))
          (λ (_ : KeyError). fail)
    count count_issued
    return token
