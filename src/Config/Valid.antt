-- ===== src/Config/Valid.antt =====
-- src/config.rs: what a configuration satisfies that `Config::from_env` gives.
use github_oidc_exchange.Prelude.{
  ℕ, ◌≡◌, subst, ◌⊎◌, inl, inr, Bool, true, false, not, Option, none, some, ok, ◌≤◌, arith, nat_eq,
  list_eq, Eq, eq_iff, ◌==◌, Bool-cases, ok_or, Holds, Holds->>=, Holds->>, Holds-eq_ok,
  if◌then◌else◌,
}
use github_oidc_exchange.Text.{Text, text}
use github_oidc_exchange.Contract.{policy_version, source_auth_policy_version}
use github_oidc_exchange.Config.{Config, ConfigError, Process}
use github_oidc_exchange.Config.Values.{
  valid_issuer_url, valid_exchange_audience, keep_if, parse_u64, required, var_or,
  supported_policy_version, valid_github_jwks_max_staleness,
}
use github_oidc_exchange.Config.FromEnv.{
  workload_from_env, browser_from_env, from_env, is_set, without_slash, default_jwks_max_staleness,
  threshold, staleness, oidc_from_env,
}
use github_oidc_exchange.Config.Parts.{
  Apart, BrowserValid, workload_from_env-Apart, browser_from_env-BrowserValid,
}

ok_or-eq-ok : {A : Type 0} (o : Option A) (e : ConfigError) {a : A} → ok_or o e ≡ ok a → o ≡ some a
ok_or-eq-ok none e h = cc
ok_or-eq-ok (some b) e h = cc

keep_if-eq-some :
    {A : Type 0} (p : A → Bool) (o : Option A) {a : A} → keep_if p o ≡ some a → p a ≡ true
keep_if-eq-some p none {a} h = cc
keep_if-eq-some {A} p (some b) {a} h = elim (Bool-cases (p b)) [
  | inr out ↦ absurd (nothing (subst (λ t. (if t then some b else none) ≡ some a) out h))
  | inl inside ↦
      subst (λ x. p x ≡ true) (same (subst (λ t. (if t then some b else none) ≡ some a) inside h))
        inside
]
  where
    nothing : ◌≡◌ {A = Option A} none (some a) → ⊥
    nothing h = cc

    same : ◌≡◌ {A = Option A} (some b) (some a) → b ≡ a
    same h = cc

module _ {A : Type 0} ⦃e : Eq A⦄ (process : Process A) where
  -- The issuer is an `https` origin, the audiences are the ones agreed on, the limits are in range,
  -- the two listeners differ, and the browser hop runs only beside the workload exchange.
  abbrev pub Valid : Config A → Type 0
  Valid config =
      (valid_issuer_url process.parse_url config.issuer_url ≡ true)
      × (config.output_audience ≡ text "steward-task-api")
      × (valid_exchange_audience config.github_exchange_audience ≡ true)
      × ((config.expected_policy_version ≡ policy_version)
          ⊎ (config.expected_policy_version ≡ source_auth_policy_version))
      × (120 ≤ config.key_expiry_readiness_threshold)
      × (config.key_expiry_readiness_threshold ≤ 31536000)
      × (600 ≤ config.github_jwks_max_staleness)
      × (config.github_jwks_max_staleness ≤ 604800)
      × Apart process config.listen_address config.workload
      × BrowserValid process config.workload config.browser_hop1

  threshold-range :
      {seconds : ℕ} (x : ConfigError)
      → ok_or (threshold process) x ≡ ok seconds
      → (120 ≤ seconds) × (seconds ≤ 31536000)
  threshold-range {seconds} x h =
      let inside =
        keep_if-eq-some _
          (parse_u64
            (var_or process (text "KEY_EXPIRY_READINESS_THRESHOLD_SECONDS") (text "604800")))
          (ok_or-eq-ok (threshold process) x h) in
      (ground arith, ground arith)

  staleness-range :
      {age : ℕ} (x : ConfigError)
      → ok_or (staleness process) x ≡ ok age
      → (600 ≤ age) × (age ≤ 604800)
  unfolding valid_github_jwks_max_staleness
  staleness-range {age} x h =
      let inside =
        keep_if-eq-some _
          (parse_u64
            (var_or process (text "GITHUB_JWKS_MAX_STALENESS_SECONDS") default_jwks_max_staleness))
          (ok_or-eq-ok (staleness process) x h) in
      (ground arith, ground arith)

  abbrev Supported : Text → Type 0
  Supported version = (version ≡ policy_version) ⊎ (version ≡ source_auth_policy_version)

  supported_policy_version-cases :
      (version : Text) → not (supported_policy_version version) ≡ false → Supported version
  unfolding supported_policy_version
  supported_policy_version-cases version h = elim (Bool-cases (version == policy_version)) [
    | inl hit ↦ inl ((eq_iff version policy_version).0 hit)
    | inr miss ↦ inr ((eq_iff version source_auth_policy_version).0 (ground arith))
  ]

  -- A configuration that is given satisfies what `Valid` says.
  pub from_env-Valid : Holds Valid (from_env process)
  unfolding from_env
  from_env-Valid = Holds->>= _ (required process (text "ISSUER_URL")) _ (λ issuer _.
      Holds->> _ (not (valid_issuer_url process.parse_url (without_slash issuer))) _ _ (λ origin.
        Holds->>= _ (required process (text "OUTPUT_AUDIENCE")) _ (λ audience _.
          Holds->> _ (not (audience == text "steward-task-api")) _ _ (λ agreed.
            Holds->>= _
              (ok_or
                (process.parse_address
                  (var_or process (text "LISTEN_ADDRESS") (text "0.0.0.0:8080")))
                _)
              _
              (λ address _. Holds->>= _ (workload_from_env process address) _ (λ workload apart.
                Holds->>= _ (browser_from_env process (is_set workload)) _ (λ browser beside.
                  Holds->>= _ (oidc_from_env process) _ (λ oidc _.
                    Holds->>= _ (required process (text "GITHUB_EXCHANGE_AUDIENCE")) _ (λ heard _.
                      Holds->> _ (not (valid_exchange_audience heard)) _ _ (λ graphic.
                        Holds->> _
                          (not (
                            supported_policy_version
                              (var_or process (text "EXPECTED_POLICY_VERSION") policy_version)))
                          _ _
                          (λ supported.
                            Holds->>= _ (ok_or (threshold process) _) _ (λ seconds within.
                              Holds->>= _ (ok_or (staleness process) _) _ (λ age bounded.
                                Holds->>= _ (required process (text "POLICY_FILE")) _ (λ _ _.
                                  Holds->>= _ (required process (text "KEYRING_FILE")) _ (λ _ _.
                                    Holds->>= _ (required process (text "REPLAY_LEASE_NAMESPACE")) _
                                      (λ _ _. (
                                        ground arith,
                                        (eq_iff audience (text "steward-task-api")).0
                                            (ground arith),
                                        ground arith,
                                        supported_policy_version-cases _ supported,
                                        (threshold-range _ within).0,
                                        (threshold-range _ within).1,
                                        (staleness-range _ bounded).0,
                                        (staleness-range _ bounded).1,
                                        Holds-eq_ok _ _ (workload_from_env-Apart process address)
                                            apart,
                                        Holds-eq_ok _ _
                                            (browser_from_env-BrowserValid process workload) beside,
                                      )))))))))))))))))
