-- ===== src/Tests/Http.antt =====
-- src/http.rs at concrete inputs.
use github_oidc_exchange.Prelude.{
  ℕ, ◌≡◌, ◌↔◌, refl, true, [], ◌∷◌, some, Result, ok, nat_eq, list_eq, list_beq, get, is_ok,
}
use github_oidc_exchange.Prelude.Int.{pos}
use github_oidc_exchange.Text.{Text, text, strip_prefix, trim, trim_start, is_whitespace}
use github_oidc_exchange.Replay.{ReplayError}
use github_oidc_exchange.Keys.{is_ready_at}
use github_oidc_exchange.Github.Cache.{check_ready}
use github_oidc_exchange.Workload.Service.{WorkloadExchangeService}
use github_oidc_exchange.Http.{HeaderMap, HeaderValue, token_response, bearer_assertion}
use github_oidc_exchange.Http.Exchanges.{browser_hop1_exchange}
use github_oidc_exchange.Http.Ready.{ready_or_absent, readiness}
use github_oidc_exchange.Http.Answers.{Granted, browser_hop1_exchange-Granted, readiness_iff}
use github_oidc_exchange.Tests.Store.{calendar}
use github_oidc_exchange.Tests.Exchanges.{ring, readings}
use github_oidc_exchange.Tests.Workload
use github_oidc_exchange.Tests.Browser
use github_oidc_exchange.Tests.Browser.{start}
use github_oidc_exchange.Tests.Github.{outside, verifier, cold}

-- The reviewer of the workload's tests, for a caller named `u`.
abbrev workload : WorkloadExchangeService ℕ Text Text
workload = record Workload.service { reviewer = λ token audience w. (ok (text "u"), w) }

abbrev headers : HeaderMap
headers =
    (text "content-type", HeaderValue.visible (text "application/jwt"))
    ∷ (text "authorization", HeaderValue.visible (text "Bearer w"))
    ∷ []

granted :
    (browser_hop1_exchange readings workload
      (some Browser.service)
      headers
      (some (text "k"))
      start).0.status
    ≡ 200
unfolding browser_hop1_exchange bearer_assertion get list_beq strip_prefix trim trim_start
    is_whitespace token_response
granted = rw Browser.issues refl

browser_hop1_exchange-Granted_example :
    Granted readings workload
      (some Browser.service)
      headers
      (some (text "k"))
      start
      (browser_hop1_exchange readings workload
        (some Browser.service)
        headers
        (some (text "k"))
        start).0
browser_hop1_exchange-Granted_example =
    browser_hop1_exchange-Granted readings workload (some Browser.service) headers (some (text "k"))
      start granted

abbrev ledger_ready : ℕ → Result (Unit {0}) ReplayError × ℕ
ledger_ready n = (ok tt, n)

readiness_iff_example :
    ((readiness calendar.num_seconds_since outside verifier ledger_ready ring
        (some ring)
        (pos 1000)
        (cold, 0)).0.status
      ≡ 204)
    ↔ ((is_ready_at calendar.num_seconds_since ring (pos 1000) ≡ true)
        × (is_ok (check_ready outside verifier cold).0 ≡ true)
        × (is_ok (ledger_ready 0).0 ≡ true)
        × (ready_or_absent calendar.num_seconds_since outside verifier ledger_ready
              (pos 1000)
              (some ring)
            ≡ true))
readiness_iff_example =
    readiness_iff calendar.num_seconds_since outside verifier ledger_ready ring (some ring)
      (pos 1000) (cold, 0)
