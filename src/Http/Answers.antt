-- ===== src/Http/Answers.antt =====
-- src/http.rs: what a response tells: of a token, and of readiness.
use github_oidc_exchange.Prelude.{
  ℕ, ◌≡◌, ◌↔◌, refl, inl, inr, ◌++◌, Bool, true, false, Option, none, some, Result, ok, err, ◌==◌,
  nat_eq, list_eq, option_eq, eq_iff, get, is_empty, is_ok, arith, Bool-cases, Option-cases,
  Result-cases,
}
use github_oidc_exchange.Prelude.Int.{ℤ}
use github_oidc_exchange.Text.{Text, text}
use github_oidc_exchange.Exchange.{Readings, State}
use github_oidc_exchange.Replay.{DateTime, ReplayError}
use github_oidc_exchange.Keys.{KeyRing, is_ready_at}
use github_oidc_exchange.Github.Cache.{Outside, GitHubVerifier, Keys, check_ready}
use github_oidc_exchange.Workload.{ReviewError}
use github_oidc_exchange.Workload.Service.{WorkloadExchangeService}
use github_oidc_exchange.Browser.Service as BrowserExchange
use github_oidc_exchange.Browser.Service.{
  BrowserHop1Metrics, BrowserHop1ExchangeError, BrowserHop1ExchangeService,
}
use github_oidc_exchange.Http.{
  HeaderMap, Response, token_response, oauth_error, to_str, bearer_assertion,
}
use github_oidc_exchange.Http.Exchanges.{answer, browser_unauthorized, browser_hop1_exchange}
use github_oidc_exchange.Http.Ready.{readiness_response, unless, ready_or_absent, readiness}

answer-issued :
    (ttl : ℕ) (r : Result Text BrowserHop1ExchangeError)
    → (answer browser_unauthorized ttl r).status ≡ 200
    → (issued : Text) × (r ≡ ok issued)
      × (answer browser_unauthorized ttl r ≡ token_response issued ttl)
unfolding oauth_error
answer-issued ttl (ok issued) h = (issued, refl, refl)
answer-issued ttl (err BrowserHop1ExchangeError.unauthorized) h = absurd (omega (arith, h))
answer-issued ttl (err BrowserHop1ExchangeError.unavailable) h = absurd (omega (arith, h))

module _ {W R K P : Type 0} (r : Readings) (workload : WorkloadExchangeService W R K) where
  -- The response holds a token that the browser exchange issues for a caller whose workload token,
  -- the request's bearer, is reviewed, and for the assertion that is the request's body.
  abbrev pub Granted :
      Option (BrowserHop1ExchangeService W P)
      → HeaderMap
      → Option Text
      → State BrowserHop1Metrics W
      → Response
      → Type 0
  Granted browser headers body s response =
      (service : BrowserHop1ExchangeService W P) × (bearer : Text) × (assertion : Text)
      × (username : Text) × (issued : Text) × (browser ≡ some service)
      × (to_str (get headers (text "content-type")) ≡ some (text "application/jwt"))
      × (bearer_assertion headers ≡ some bearer)
      × (body ≡ some assertion)
      × ((workload.reviewer bearer workload.input_audience s.world).0 ≡ ok username)
      × ((BrowserExchange.exchange service r username assertion
            (record s { world = (workload.reviewer bearer workload.input_audience s.world).1 })).0
          ≡ ok issued)
      × (response ≡ token_response issued service.token_ttl)

  -- A response of status 200 is one that `Granted` describes.
  pub browser_hop1_exchange-Granted :
      (browser : Option (BrowserHop1ExchangeService W P)) (headers : HeaderMap) (body : Option Text)
      (s : State BrowserHop1Metrics W)
      → (browser_hop1_exchange r workload browser headers body s).0.status ≡ 200
      → Granted browser headers body s (browser_hop1_exchange r workload browser headers body s).0
  unfolding browser_hop1_exchange oauth_error
  browser_hop1_exchange-Granted none headers body s = λ h. absurd (omega (arith, h))
  browser_hop1_exchange-Granted (some service) headers body s =
      elim (Bool-cases
        (to_str (get headers (text "content-type")) == some (text "application/jwt"))) [
          | inr other ↦ rw other (λ h. absurd (omega (arith, h)))
          | inl typed ↦ elim (Option-cases (bearer_assertion headers)) [
            | inl e ↦ rw (typed, e) (λ h. absurd (omega (arith, h)))
            | inr (bearer, e) ↦ elim (Option-cases body) [
              | inl f ↦ rw (typed, e, f) (λ h. absurd (omega (arith, h)))
              | inr (assertion, f) ↦ elim (Bool-cases (is_empty assertion)) [
                | inl g ↦ rw (typed, e, f, g) (λ h. absurd (omega (arith, h)))
                | inr g ↦
                    elim (Result-cases
                      (workload.reviewer bearer workload.input_audience s.world).0) [
                        | inr (ReviewError.invalid, i) ↦
                            rw (typed, e, f, g, i) (λ h. absurd (omega (arith, h)))
                        | inr (ReviewError.unavailable, i) ↦
                            rw (typed, e, f, g, i) (λ h. absurd (omega (arith, h)))
                        | inl (username, i) ↦
                            rw (typed, e, f, g, i)
                              (λ h.
                                let (issued, made, same) = answer-issued service.token_ttl _ h in
                                (
                                  service,
                                  bearer,
                                  assertion,
                                  username,
                                  issued,
                                  refl,
                                  (eq_iff (to_str (get headers (text "content-type")))
                                        (some (text "application/jwt"))).0
                                      typed,
                                  refl,
                                  refl,
                                  i,
                                  made,
                                  same,
                                ))
                      ]
              ]
            ]
          ]
        ]

four_checks :
    (a b c d : Bool) (u v w x : Text)
    → ((readiness_response (unless a u ++ (unless b v ++ (unless c w ++ unless d x)))).status ≡ 204)
      ↔ ((a ≡ true) × (b ≡ true) × (c ≡ true) × (d ≡ true))
unfolding readiness_response
four_checks true true true true u v w x = (λ h. (refl, refl, refl, refl), λ h. refl)
four_checks true true true false u v w x = (λ h. absurd (omega (arith, h)), λ h. cc)
four_checks true true false d u v w x = (λ h. absurd (omega (arith, h)), λ h. cc)
four_checks true false c d u v w x = (λ h. absurd (omega (arith, h)), λ h. cc)
four_checks false b c d u v w x = (λ h. absurd (omega (arith, h)), λ h. cc)

module _ {W K J L P R : Type 0} (num_seconds_since : DateTime → DateTime → ℤ) (o : Outside W K J)
    (p : GitHubVerifier) (ledger_ready : L → Result (Unit {0}) ReplayError × L) where
  -- The public listener answers 204 exactly where its signing key is ready, GitHub's keys are usable,
  -- the ledger answers, and the workload key, if there is one, is ready.
  pub readiness_iff :
      (keys : KeyRing P) (workload_keys : Option (KeyRing R)) (now : DateTime) (s : Keys W K × L)
      → ((readiness num_seconds_since o p ledger_ready keys workload_keys now s).0.status ≡ 204) ↔ (
          (is_ready_at num_seconds_since keys now ≡ true)
          × (is_ok (check_ready o p s.0).0 ≡ true)
          × (is_ok (ledger_ready s.1).0 ≡ true)
          × (ready_or_absent num_seconds_since o p ledger_ready now workload_keys ≡ true))
  unfolding readiness
  readiness_iff keys workload_keys now s = four_checks _ _ _ _ _ _ _ _
