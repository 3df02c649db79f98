-- ===== src/Config/Parts.antt =====
-- src/config.rs: what the workload's and the browser hop's configurations satisfy.
use github_oidc_exchange.Prelude.{
  ◌≡◌, ◌≢◌, refl, Bool, true, false, not, Option, none, some, ok, err, arith, nat_eq, list_eq, Eq,
  eq_iff, ◌==◌, ok_or, refuse_if, Holds, Holds->>=, Holds->>, Holds-eq_ok, Holds-of, if◌then◌else◌,
  ◌>>◌,
}
use github_oidc_exchange.Text.{text, trim_end_matches}
use github_oidc_exchange.Config.{WorkloadConfig, BrowserHop1Config, ConfigError, Process}
use github_oidc_exchange.Config.Values.{Checked, valid_https_url, required, enabled, var_or}
use github_oidc_exchange.Config.FromEnv.{
  workload_from_env, browser_from_env, is_set, workload_values, browser_values, some_of, conflicts,
}

module _ {A : Type 0} ⦃e : Eq A⦄ (process : Process A) where
  -- The workload's listener has an address of its own.
  abbrev pub Apart : A → Option (WorkloadConfig A) → Type 0
  Apart address none = Unit
  Apart address (some workload) =
      (workload.listen_address ≢ address) × (workload.output_audience ≡ text "openshell-api")

  abbrev pub BrowserValid : Option (WorkloadConfig A) → Option BrowserHop1Config → Type 0
  BrowserValid workload none = Unit
  BrowserValid workload (some browser) =
      ((w : WorkloadConfig A) × (workload ≡ some w))
      × (valid_https_url process.parse_url browser.steward_issuer ≡ true)
      × (valid_https_url process.parse_url browser.output_audience ≡ true)

  workload_values-audience :
      Holds (λ workload. workload.output_audience ≡ text "openshell-api") (workload_values process)
  workload_values-audience =
      Holds->>= _ (required process (text "WORKLOAD_OUTPUT_AUDIENCE")) _ (λ audience _.
        Holds->> _ (not (audience == text "openshell-api")) _ _ (λ agreed.
          Holds->>= _
            (ok_or
              (process.parse_address
                (var_or process (text "WORKLOAD_LISTEN_ADDRESS") (text "0.0.0.0:8443")))
              _)
            _
            (λ _ _. Holds->>= _ (required process (text "WORKLOAD_INPUT_AUDIENCE")) _ (λ _ _.
              Holds->>= _ (required process (text "WORKLOAD_POLICY_FILE")) _ (λ _ _.
                Holds->>= _ (required process (text "WORKLOAD_RSA_KEYRING_FILE")) _ (λ _ _.
                  Holds->>= _ (required process (text "TLS_CERTIFICATE_FILE")) _ (λ _ _.
                    Holds->>= _ (required process (text "TLS_PRIVATE_KEY_FILE")) _
                      (λ _ _. (eq_iff audience (text "openshell-api")).0 (ground arith)))))))))

  some_of-inversion :
      {B : Type 0} (r : Checked B) {b : B} → some_of process r ≡ ok (some b) → r ≡ ok b
  some_of-inversion (ok a) h = cc
  some_of-inversion (err x) h = cc

  Apart-when :
      (address : A) (on : Bool) (workload : Option (WorkloadConfig A))
      → (if on then some_of process (workload_values process) else ok none) ≡ ok workload
      → conflicts process address workload ≡ false
      → Apart address workload
  Apart-when address on none made apart = tt
  Apart-when address false (some workload) made apart = cc
  Apart-when address true (some workload) made apart = (
    λ f. let hit = (eq_iff workload.listen_address address).1 f in cc,
    Holds-eq_ok _ (workload_values process) workload_values-audience
        (some_of-inversion (workload_values process) made),
  )

  pub workload_from_env-Apart :
      (address : A) → Holds (Apart address) (workload_from_env process address)
  unfolding workload_from_env
  workload_from_env-Apart address =
      Holds->>= _
        (enabled process (text "WORKLOAD_EXCHANGE_ENABLED") ConfigError.invalid_workload_enabled) _
        (λ on _.
          Holds->>= _ (if on then some_of process (workload_values process) else ok none) _
            (λ workload made.
              Holds->> _ (conflicts process address workload) _ _
                (λ apart. Apart-when address on workload made apart)))

  abbrev BrowserUrls : BrowserHop1Config → Type 0
  BrowserUrls browser =
      (valid_https_url process.parse_url browser.steward_issuer ≡ true)
      × (valid_https_url process.parse_url browser.output_audience ≡ true)

  browser_values-BrowserUrls : Holds BrowserUrls (browser_values process)
  browser_values-BrowserUrls =
      Holds->>= _ (required process (text "BROWSER_HOP1_STEWARD_ISSUER")) _ (λ issuer _.
        Holds->> _ (not (valid_https_url process.parse_url (trim_end_matches b'/' issuer))) _ _
          (λ agreed.
            Holds->>= _ (required process (text "BROWSER_HOP1_OUTPUT_AUDIENCE")) _ (λ audience _.
              Holds->> _ (not (valid_https_url process.parse_url audience)) _ _ (λ heard.
                Holds->>= _ (required process (text "BROWSER_HOP1_ASSERTION_AUDIENCE")) _ (λ _ _.
                  Holds->>= _ (required process (text "BROWSER_HOP1_STEWARD_JWKS_FILE")) _
                    (λ _ _. (ground arith, ground arith)))))))

  BrowserValid-when :
      (workload : Option (WorkloadConfig A)) (on : Bool) (browser : Option BrowserHop1Config)
      → (if on
          then refuse_if (not (is_set workload)) ConfigError.browser_hop1_requires_workload
            >> some_of process (browser_values process)
          else ok none)
        ≡ ok browser
      → BrowserValid workload browser
  BrowserValid-when workload on none h = tt
  BrowserValid-when workload false (some browser) h = cc
  BrowserValid-when none true (some browser) h = cc
  BrowserValid-when (some workload) true (some browser) h =
      let (steward, audience) =
        Holds-eq_ok _ (browser_values process) browser_values-BrowserUrls
          (some_of-inversion (browser_values process) h) in
      ((workload, refl), steward, audience)

  pub browser_from_env-BrowserValid :
      (workload : Option (WorkloadConfig A))
      → Holds (BrowserValid workload) (browser_from_env process (is_set workload))
  unfolding browser_from_env
  browser_from_env-BrowserValid workload =
      Holds->>= _
        (enabled process (text "BROWSER_HOP1_ENABLED") ConfigError.invalid_browser_hop1_enabled) _
        (λ on _. Holds-of _ _ (BrowserValid-when workload on))
