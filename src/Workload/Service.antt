-- ===== src/Workload/Service.antt =====
-- src/workload.rs: `WorkloadExchangeService::exchange`. The log events are left out.
use github_oidc_exchange.Prelude.{
  ℕ, ◌-◌, Bool, true, not, ◌||◌, List, [], ◌∷◌, ◌++◌, Option, none, some, Result, if◌then◌else◌,
}
use github_oidc_exchange.Prelude.Int.{leb_ℤ}
use github_oidc_exchange.Contract.{identity_contract_v2, workload_identity_contract}
use github_oidc_exchange.Text.{Text, text}
use github_oidc_exchange.Effects.{M, ◌>>=◌, ◌>>◌, return, from_result, catch, add_u64, bump, as_i64}
use github_oidc_exchange.Replay.{ReplayError}
use github_oidc_exchange.Exchange.{ReplayLedger, Readings, State, on_world, count, refuse}
use github_oidc_exchange.Keys.{KeyRing, KeyError, sign_at}
use github_oidc_exchange.Workload.{
  WorkloadPolicy, WorkloadPolicyError, WorkloadIdentity, WorkloadTaskBinding, ReviewError,
  ProjectedTokenClaims,
}
use github_oidc_exchange.Workload.Identities.{authorize, bounded_non_whitespace}

pub record WorkloadMetrics : Type 0 where
  pub requests : ℕ
  pub issued : ℕ
  pub denied : ℕ
  pub errors : ℕ

pub data WorkloadExchangeError : Type 0 where
  unauthorized unavailable : WorkloadExchangeError

pub record WorkloadOutputClaims : Type 0 where
  pub iss : Text
  pub sub : Text
  pub aud : List Text
  pub exp : ℕ
  pub iat : ℕ
  pub nbf : ℕ
  pub jti : Text
  pub roles : List Text
  pub identity_contract : Text

pub record WorkloadTaskOutputClaims : Type 0 where
  pub iss : Text
  pub sub : Text
  pub aud : List Text
  pub exp : ℕ
  pub iat : ℕ
  pub nbf : ℕ
  pub jti : Text
  pub email : Text
  pub email_verified : Bool
  pub groups : List Text
  pub identity_contract : Text

-- `R` and `K` are the types of the RSA and of the P-256 keys; the last three fields are the
-- libraries' decoding of unverified claims and encoding of tokens.
pub record WorkloadExchangeService (W R K : Type 0) : Type 0 where
  pub reviewer : Text → Text → W → Result Text ReviewError × W
  pub policy : WorkloadPolicy
  pub keys : KeyRing R
  pub task_keys : KeyRing K
  pub ledger : ReplayLedger W
  pub issuer : Text
  pub input_audience : Text
  pub output_audience : Text
  pub task_output_audience : Text
  pub token_ttl : ℕ
  pub insecure_decode : Text → Option ProjectedTokenClaims
  pub encode : Text → R → WorkloadOutputClaims → Option Text
  pub encode_task : Text → K → WorkloadTaskOutputClaims → Option Text

abbrev pub task_groups : WorkloadTaskBinding → List Text
task_groups task =
    (text "agents.apelogic.ai/service-principal:" ++ task.service)
    ∷ (text "agents.apelogic.ai/canonical-user:" ++ task.owner_canonical_user_id)
    ∷ (text "agents.apelogic.ai/task-owner:" ++ task.owner_email)
    ∷ []

abbrev pub count_request : WorkloadMetrics → WorkloadMetrics
count_request m = record m { requests = bump m.requests }

abbrev pub count_issued : WorkloadMetrics → WorkloadMetrics
count_issued m = record m { issued = bump m.issued }

abbrev pub count_denied : WorkloadMetrics → WorkloadMetrics
count_denied m = record m { denied = bump m.denied }

abbrev pub count_error : WorkloadMetrics → WorkloadMetrics
count_error m = record m { errors = bump m.errors }

module _ {W R K : Type 0} (s : WorkloadExchangeService W R K) (r : Readings) where
  abbrev X : Type 0 → Type 0
  X A = M (State WorkloadMetrics W) WorkloadExchangeError A

  abbrev deny : {A : Type 0} → X A
  deny = refuse count_denied unauthorized

  abbrev fail : {A : Type 0} → X A
  fail = refuse count_error unavailable

  abbrev review_failed : ReviewError → X Text
  review_failed ReviewError.invalid = deny
  review_failed ReviewError.unavailable = fail

  abbrev replay_failed : ReplayError → X (Unit {0})
  replay_failed ReplayError.replayed = deny
  replay_failed ReplayError.unavailable = fail
  replay_failed (ReplayError.configuration _) = fail

  abbrev source_claims : Option ProjectedTokenClaims → X ProjectedTokenClaims
  source_claims none = deny
  source_claims (some claims) =
      if not (bounded_non_whitespace claims.jti 128) || leb_ℤ claims.exp (as_i64 r.now)
      then deny
      else return claims

  unfoldable pub task_claims : WorkloadIdentity → WorkloadTaskBinding → WorkloadTaskOutputClaims
  task_claims identity task = record {
    iss = s.issuer;
    sub = identity.subject;
    aud = s.task_output_audience ∷ [];
    exp = add_u64 r.now s.token_ttl;
    iat = r.now;
    nbf = r.now - 5;
    jti = r.token_id;
    email = task.owner_email;
    email_verified = true;
    groups = task_groups task;
    identity_contract = identity_contract_v2;
  }

  unfoldable pub workload_claims : WorkloadIdentity → WorkloadOutputClaims
  workload_claims identity = record {
    iss = s.issuer;
    sub = identity.subject;
    aud = s.output_audience ∷ [];
    exp = add_u64 r.now s.token_ttl;
    iat = r.now;
    nbf = r.now - 5;
    jti = r.token_id;
    roles = identity.roles;
    identity_contract = workload_identity_contract;
  }

  unfoldable pub issue : Text → WorkloadIdentity → Option WorkloadTaskBinding → X Text
  unfolding task_claims workload_claims
  issue assertion identity none =
      catch (from_result (sign_at "RSA " s.encode s.keys (workload_claims identity) r.signed_at))
        (λ (_ : KeyError). fail)
  issue assertion identity (some task) = do
    claims ← source_claims (s.insecure_decode assertion)
    catch (on_world (s.ledger.use_once claims.jti claims.exp)) replay_failed
    catch
        (from_result (sign_at "" s.encode_task s.task_keys (task_claims identity task) r.signed_at))
        (λ (_ : KeyError). fail)

  unfoldable pub exchange : Text → X Text
  unfolding issue
  exchange assertion = do
    count count_request
    username ← catch (on_world (s.reviewer assertion s.input_audience)) review_failed
    identity ← catch (from_result (authorize s.policy username)) (λ (_ : WorkloadPolicyError). deny)
    token ← issue assertion identity identity.task
    count count_issued
    return token
