-- ===== src/Service/Exchange.antt =====
-- src/service.rs: `ExchangeService::exchange`.
use github_oidc_exchange.Prelude.{◌-◌, [], ◌∷◌}
use github_oidc_exchange.Text.{Text}
use github_oidc_exchange.Effects.{M, ◌>>=◌, ◌>>◌, return, from_result, catch, add_u64, bump}
use github_oidc_exchange.Replay.{ReplayError}
use github_oidc_exchange.Exchange.{Readings, State, on_world, count, refuse}
use github_oidc_exchange.Keys.{KeyError, sign_at}
use github_oidc_exchange.Github.{GitHubClaims, VerifyError}
use github_oidc_exchange.Policy.{Identity, PolicyError}
use github_oidc_exchange.Policy.Authorize.{authorize}
use github_oidc_exchange.Service.{
  Metrics, ExchangeError, OutputClaims, ExchangeService, source_provenance,
}

abbrev pub count_request : Metrics → Metrics
count_request m = record m { requests = bump m.requests }

abbrev pub count_issued : Metrics → Metrics
count_issued m = record m { issued = bump m.issued }

abbrev pub count_denied : Metrics → Metrics
count_denied m = record m { denied = bump m.denied }

abbrev pub count_replayed : Metrics → Metrics
count_replayed m = record m { replayed = bump m.replayed }

abbrev pub count_error : Metrics → Metrics
count_error m = record m { errors = bump m.errors }

module _ {W K : Type 0} (s : ExchangeService W K) (r : Readings) where
  abbrev X : Type 0 → Type 0
  X A = M (State Metrics W) ExchangeError A

  abbrev deny : {A : Type 0} → X A
  deny = refuse count_denied ExchangeError.unauthorized

  abbrev fail : {A : Type 0} → X A
  fail = refuse count_error ExchangeError.unavailable

  abbrev verify_failed : VerifyError → X GitHubClaims
  verify_failed VerifyError.invalid = deny
  verify_failed (VerifyError.keys_unavailable _ _) = fail

  abbrev replay_failed : ReplayError → X (Unit {0})
  replay_failed ReplayError.replayed = refuse count_replayed ExchangeError.unauthorized
  replay_failed ReplayError.unavailable = fail
  replay_failed (ReplayError.configuration _) = fail

  unfoldable pub output_claims : GitHubClaims → Identity → OutputClaims
  output_claims claims identity = record {
    iss = s.issuer;
    sub = identity.subject;
    aud = s.output_audience ∷ [];
    exp = add_u64 r.now s.token_ttl;
    iat = r.now;
    nbf = r.now - 5;
    jti = r.token_id;
    actor_login = identity.actor_login;
    email = identity.email;
    email_verified = identity.email_verified;
    groups = identity.groups;
    identity_contract = identity.identity_contract;
    source_provenance = source_provenance claims;
  }

  unfoldable pub exchange : Text → X Text
  exchange assertion = do
    count count_request
    claims ← catch (on_world (s.verify assertion)) verify_failed
    identity ← catch (from_result (authorize s.policy claims)) (λ (_ : PolicyError). deny)
    catch (on_world (s.ledger.use_once claims.jti claims.exp)) replay_failed
    token ←
        catch (from_result (sign_at "" s.encode s.keys (output_claims claims identity) r.signed_at))
          (λ (_ : KeyError). fail)
    count count_issued
    return token
