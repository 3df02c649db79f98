-- ===== src/Http/Exchanges.antt =====
-- src/http.rs: the handlers of the four exchanges.
use github_oidc_exchange.Prelude.{
  ℕ, List, Bool, true, false, not, Option, none, some, Result, ok, err, ◌==◌, nat_eq, list_eq,
  option_eq, get, is_empty, if◌then◌else◌,
}
use github_oidc_exchange.Text.{Text, text}
use github_oidc_exchange.Exchange.{Readings, State}
use github_oidc_exchange.Service.{Metrics, ExchangeError, ExchangeService}
use github_oidc_exchange.Service.Exchange as GithubExchange
use github_oidc_exchange.Oidc.Service as OidcExchange
use github_oidc_exchange.Oidc.Service.{OidcMetrics, OidcExchangeError, OidcExchangeService}
use github_oidc_exchange.Workload.{ReviewError}
use github_oidc_exchange.Workload.Service as WorkloadExchange
use github_oidc_exchange.Workload.Service.{
  WorkloadMetrics, WorkloadExchangeError, WorkloadExchangeService,
}
use github_oidc_exchange.Browser.Service as BrowserExchange
use github_oidc_exchange.Browser.Service.{
  BrowserHop1Metrics, BrowserHop1ExchangeError, BrowserHop1ExchangeService,
}
use github_oidc_exchange.Http.{
  HeaderMap, Response, status_only, token_response, oauth_error, to_str, bearer_assertion,
}

abbrev pub invalid_token : Response
invalid_token = oauth_error 401 (text "invalid_token")

abbrev pub temporarily_unavailable : Response
temporarily_unavailable = oauth_error 503 (text "temporarily_unavailable")

abbrev pub invalid_request : Response
invalid_request = oauth_error 400 (text "invalid_request")

abbrev pub not_found : Response
not_found = status_only 404

-- The answer to a result, `unauthorized` telling the service's two errors apart.
abbrev pub answer {ℓ} : {E : Type ℓ} → (E → Bool) → ℕ → Result Text E → Response
answer unauthorized token_ttl (ok token) = token_response token token_ttl
answer unauthorized token_ttl (err e) =
    if unauthorized e then invalid_token else temporarily_unavailable

-- The response to a step's result, and the state that the step leaves.
abbrev pub answered {ℓ} :
    {E : Type ℓ} {S : Type 0} → (E → Bool) → ℕ → Result Text E × S → Response × S
answered unauthorized token_ttl r = (answer unauthorized token_ttl r.0, r.1)

abbrev pub github_unauthorized : ExchangeError → Bool
github_unauthorized ExchangeError.unauthorized = true
github_unauthorized ExchangeError.unavailable = false

abbrev pub oidc_unauthorized : OidcExchangeError → Bool
oidc_unauthorized OidcExchangeError.unauthorized = true
oidc_unauthorized OidcExchangeError.unavailable = false

abbrev pub workload_unauthorized : WorkloadExchangeError → Bool
workload_unauthorized WorkloadExchangeError.unauthorized = true
workload_unauthorized WorkloadExchangeError.unavailable = false

abbrev pub browser_unauthorized : BrowserHop1ExchangeError → Bool
browser_unauthorized BrowserHop1ExchangeError.unauthorized = true
browser_unauthorized BrowserHop1ExchangeError.unavailable = false

-- What is done with the assertion of a request, which is 401 without one.
abbrev pub with_assertion :
    {S : Type 0} → Option Text → (Text → S → Response × S) → S → Response × S
with_assertion none next s = (invalid_token, s)
with_assertion (some assertion) next s = next assertion s

-- A body that is read and not empty.
abbrev pub with_body : {S : Type 0} → Option Text → (Text → S → Response × S) → S → Response × S
with_body none next s = (invalid_request, s)
with_body (some assertion) next s =
    if is_empty assertion then (invalid_request, s) else next assertion s

module _ {W K : Type 0} (r : Readings) where
  unfoldable pub exchange :
      ExchangeService W K → HeaderMap → State Metrics W → Response × State Metrics W
  exchange service headers = with_assertion (bearer_assertion headers) (λ assertion s.
      answered github_unauthorized service.token_ttl
        (GithubExchange.exchange service r assertion s))

  abbrev pub with_oidc :
      Option (OidcExchangeService W K)
      → HeaderMap
      → State OidcMetrics W
      → Response × State OidcMetrics W
  with_oidc none headers s = (not_found, s)
  with_oidc (some service) headers s =
      with_assertion (bearer_assertion headers)
        (λ assertion t.
          answered oidc_unauthorized service.token_ttl
            (OidcExchange.exchange service r assertion t))
        s

  unfoldable pub generic_oidc_exchange :
      Option (OidcExchangeService W K)
      → HeaderMap
      → List ℕ
      → State OidcMetrics W
      → Response × State OidcMetrics W
  generic_oidc_exchange oidc headers body s =
      if not (is_empty body) then (invalid_request, s) else with_oidc oidc headers s

module _ {W R K : Type 0} (r : Readings) (workload : WorkloadExchangeService W R K) where
  unfoldable pub workload_exchange :
      HeaderMap → List ℕ → State WorkloadMetrics W → Response × State WorkloadMetrics W
  workload_exchange headers body s =
      if not (is_empty body)
      then (invalid_request, s)
      else with_assertion (bearer_assertion headers)
          (λ assertion t.
            answered workload_unauthorized workload.token_ttl
              (WorkloadExchange.exchange workload r assertion t))
          s

module _ {W R K P : Type 0} (r : Readings) (workload : WorkloadExchangeService W R K) where
  -- The exchange for a reviewed caller.
  abbrev pub reviewed :
      BrowserHop1ExchangeService W P
      → Text
      → Result Text ReviewError
      → State BrowserHop1Metrics W
      → Response × State BrowserHop1Metrics W
  reviewed browser assertion (ok username) s =
      answered browser_unauthorized browser.token_ttl
        (BrowserExchange.exchange browser r username assertion s)
  reviewed browser assertion (err ReviewError.invalid) s = (invalid_token, s)
  reviewed browser assertion (err ReviewError.unavailable) s = (temporarily_unavailable, s)

  abbrev pub review_then :
      BrowserHop1ExchangeService W P
      → Text
      → Text
      → State BrowserHop1Metrics W
      → Response × State BrowserHop1Metrics W
  review_then browser assertion workload_assertion s =
      let review = workload.reviewer workload_assertion workload.input_audience s.world in
      reviewed browser assertion review.0 (record s { world = review.1 })

  abbrev pub with_browser :
      BrowserHop1ExchangeService W P
      → HeaderMap
      → Option Text
      → State BrowserHop1Metrics W
      → Response × State BrowserHop1Metrics W
  with_browser browser headers body s =
      if not (to_str (get headers (text "content-type")) == some (text "application/jwt"))
      then (invalid_request, s)
      else with_assertion (bearer_assertion headers)
          (λ workload_assertion.
            with_body body (λ assertion. review_then browser assertion workload_assertion))
          s

  -- `body` is the body as UTF-8.
  unfoldable pub browser_hop1_exchange :
      Option (BrowserHop1ExchangeService W P)
      → HeaderMap
      → Option Text
      → State BrowserHop1Metrics W
      → Response × State BrowserHop1Metrics W
  browser_hop1_exchange none headers body s = (not_found, s)
  browser_hop1_exchange (some browser) headers body s = with_browser browser headers body s
