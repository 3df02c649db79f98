-- ===== src/Workload/Issued.antt =====
-- src/workload.rs: what an exchange counts, and when it issues a token for a task.
use github_oidc_exchange.Prelude.{
  ◌≡◌, ◌⊎◌, refl, sym, ap, subst, nat_eq, list_eq, some, inl, inr, Result, ok, err, Result-cases,
}
use github_oidc_exchange.Effects.{bump, ◌>>◌, return, continue}
use github_oidc_exchange.Text.{Text}
use github_oidc_exchange.Exchange.{Readings, State, count}
use github_oidc_exchange.Workload.{
  WorkloadIdentity, WorkloadPolicyError, WorkloadTaskBinding, ReviewError,
}
use github_oidc_exchange.Workload.Identities.{authorize}
use github_oidc_exchange.Workload.Service.{
  WorkloadMetrics, WorkloadExchangeError, WorkloadExchangeService, issue, exchange, count_request,
  count_issued,
}
use github_oidc_exchange.Workload.Issue.{
  Refused, Broken, Outcome, issue-Outcome, Spent, issue-Spent,
}

module _ {W R K : Type 0} (s : WorkloadExchangeService W R K) (r : Readings)
    (assertion : Text) where
  abbrev finish_all :
      Result Text WorkloadExchangeError × State WorkloadMetrics W
      → Result Text WorkloadExchangeError × State WorkloadMetrics W
  finish_all = continue (λ token. count count_issued >> return token)

  -- The state in which `issue` starts.
  abbrev pub reviewed : State WorkloadMetrics W → State WorkloadMetrics W
  reviewed before = record {
    metrics = count_request before.metrics;
    world = (s.reviewer assertion s.input_audience before.world).1;
  }

  -- The policy knows the reviewed username as the identity.
  abbrev Known : State WorkloadMetrics W → WorkloadIdentity → Type 0
  Known before identity =
      (username : Text) × ((s.reviewer assertion s.input_audience before.world).0 ≡ ok username)
      × (authorize s.policy username ≡ ok identity)

  -- The review or the policy refuses the caller, or the task's assertion is refused.
  abbrev Denied : State WorkloadMetrics W → Type 0
  Denied before =
      ((s.reviewer assertion s.input_audience before.world).0 ≡ err ReviewError.invalid)
      ⊎ (((username : Text) × (x : WorkloadPolicyError) × ((s.reviewer assertion s.input_audience
                before.world).0
              ≡ ok username)
            × (authorize s.policy username ≡ err x))
          ⊎ ((identity : WorkloadIdentity) × Known before identity
              × Refused s r assertion identity.task (reviewed before).world))

  -- The review is unavailable, the ledger fails, or no token can be signed.
  abbrev Failed : State WorkloadMetrics W → Type 0
  Failed before =
      ((s.reviewer assertion s.input_audience before.world).0 ≡ err ReviewError.unavailable)
      ⊎ ((identity : WorkloadIdentity) × Known before identity
          × Broken s r assertion identity identity.task (reviewed before).world)

  -- The counters after an exchange by its result, and the cause of the result where it is an error.
  abbrev pub Counted :
      State WorkloadMetrics W → Result Text WorkloadExchangeError → WorkloadMetrics → Type 0
  Counted before (ok token) after = after ≡ record {
    requests = bump before.metrics.requests;
    issued = bump before.metrics.issued;
    denied = before.metrics.denied;
    errors = before.metrics.errors;
  }
  Counted before (err WorkloadExchangeError.unauthorized) after =
      Denied before
      × (after ≡ record {
        requests = bump before.metrics.requests;
        issued = before.metrics.issued;
        denied = bump before.metrics.denied;
        errors = before.metrics.errors;
      })
  Counted before (err WorkloadExchangeError.unavailable) after =
      Failed before
      × (after ≡ record {
        requests = bump before.metrics.requests;
        issued = before.metrics.issued;
        denied = before.metrics.denied;
        errors = bump before.metrics.errors;
      })

  finish-Counted :
      (before : State WorkloadMetrics W) (identity : WorkloadIdentity)
      (answer : Result Text WorkloadExchangeError × State WorkloadMetrics W)
      → Known before identity
      → Outcome s r assertion identity identity.task (reviewed before) answer.0 answer.1.metrics
      → Counted before (finish_all answer).0 (finish_all answer).1.metrics
  finish-Counted before identity (ok token, after) known h = ap count_issued h
  finish-Counted before identity (err WorkloadExchangeError.unauthorized, after) known (why, h) =
      (inr (inr (identity, known, why)), h)
  finish-Counted before identity (err WorkloadExchangeError.unavailable, after) known (why, h) =
      (inr (identity, known, why), h)

  -- Each exchange counts one request and the one outcome that its cause calls for, and leaves the
  -- other counters as they are; its error is the one that the cause calls for. A replay is a denial.
  pub exchange-tallies :
      (before : State WorkloadMetrics W)
      → Counted before (exchange s r assertion before).0 (exchange s r assertion before).1.metrics
  unfolding exchange
  exchange-tallies before =
      elim (Result-cases (s.reviewer assertion s.input_audience before.world).0) [
        | inr (ReviewError.invalid, e) ↦ rw e (inl e, refl)
        | inr (ReviewError.unavailable, e) ↦ rw e (inl e, refl)
        | inl (username, e) ↦ elim (Result-cases (authorize s.policy username)) [
          | inr (x, f) ↦ rw (e, f) (inr (inl (username, x, e, f)), refl)
          | inl (identity, f) ↦
              rw (e, f)
                (finish-Counted before identity
                  (issue s r assertion identity identity.task (reviewed before)) (username, e, f)
                  (issue-Outcome s r assertion identity identity.task (reviewed before)))
        ]
      ]

  finish-ok :
      (answer : Result Text WorkloadExchangeError × State WorkloadMetrics W) {token : Text}
      → (finish_all answer).0 ≡ ok token
      → (answer.0 ≡ ok token) × ((finish_all answer).1.world ≡ answer.1.world)
  finish-ok (ok made, after) h = (h, refl)
  finish-ok (err x, after) h = cc

  -- Where the identity of a reviewed username is bound to a task, a token is issued only if the
  -- assertion's own claims are not over and the ledger takes its `jti` for unused; it is then the
  -- current task key's token, within that key's window, of the claims made of identity and task.
  pub exchange-task :
      (before : State WorkloadMetrics W) (username : Text) (identity : WorkloadIdentity)
      (task : WorkloadTaskBinding) {token : Text}
      → (s.reviewer assertion s.input_audience before.world).0 ≡ ok username
      → authorize s.policy username ≡ ok identity
      → identity.task ≡ some task
      → (exchange s r assertion before).0 ≡ ok token
      → Spent s r assertion identity task token
          (reviewed before).world
          (exchange s r assertion before).1.world
  unfolding exchange
  exchange-task before username identity task {token} e f t =
      rw (e, f, t)
        (λ p.
          let answer = issue s r assertion identity (some task) (reviewed before) in
          let (issued, same) = finish-ok answer p in
          subst (λ w. Spent s r assertion identity task token (reviewed before).world w) (sym same)
            (issue-Spent s r assertion identity task (reviewed before) issued))
