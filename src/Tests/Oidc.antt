-- ===== src/Tests/Oidc.antt =====
-- src/oidc.rs at concrete inputs.
use mathlib.Core.Option
use github_oidc_exchange.Prelude.{
  ℕ, suc, ◌≡◌, ◌==◌, refl, true, List, [], ◌∷◌, Option, none, some, ok, err, any, all, filter, find,
  get, put, contains, only, list_beq, In, nat_eq, list_eq,
}
use github_oidc_exchange.Prelude.Int.{pos, ◌+ℤ◌, ◌-ℤ◌, checked_sub, saturating_sub}
use github_oidc_exchange.Text.{
  Text, text, utf8, bytes, len, strip_prefix, ends_with, contains_char, split_once,
  is_ascii_graphic, is_ascii_alphanumeric, is_lower_hex, is_whitespace, to_ascii_lowercase,
}
use github_oidc_exchange.Exchange.{State}
use github_oidc_exchange.Keys.{in_window, sign_at}
use github_oidc_exchange.Workload.{WorkloadTaskBinding}
use github_oidc_exchange.Oidc.{
  OidcPolicy, OidcProviderPolicy, OidcBinding, OidcClaims, OidcVerifyError, Value, Url,
  oidc_policy_version,
}
use github_oidc_exchange.Oidc.Policy.{
  bounded_graphic, valid_claim_name, claim_bindings_overlap, valid_task_binding, claim_refused,
  binding_refused, validate_bindings, valid_issuer, provider_refused, validate_providers, validate,
  binding_matches, authorize,
}
use github_oidc_exchange.Oidc.Claims.{exact_audience, assertion_refused, validated_claims}
use github_oidc_exchange.Oidc.Identifiers.{replay_preimage, replay_identifier}
use github_oidc_exchange.Oidc.Bindings.{authorize-matching}
use github_oidc_exchange.Oidc.Accepted.{Accepted, validated_claims-Accepted}
use github_oidc_exchange.Oidc.Cache.{Outside, ProviderVerifier, Provider, cache_is_usable, key}
use github_oidc_exchange.Oidc.Fresh.{Given, key-Given}
use github_oidc_exchange.Oidc.Verify.{
  Providers, VerifierSet, Jwt, discover_with_additional_ca, insert_providers, verify,
}
use github_oidc_exchange.Oidc.Verified.{Verifies, verify-Provides}
use github_oidc_exchange.Oidc.Configured.{verifier_of, discover-Configured}
use github_oidc_exchange.Oidc.Service.{OidcMetrics, OidcExchangeService, output_claims, exchange}
use github_oidc_exchange.Oidc.Issued.{Counted, exchange-counts, exchange-issues}
use github_oidc_exchange.Tests.Exchanges.{ring, sign, ledger, readings}
use github_oidc_exchange.Tests.Workload.{task}

abbrev issuer : Text
issuer = text "https://ci.example.com"

abbrev binding : Text → OidcBinding
binding sub = record { claims = (text "sub", sub) ∷ []; task = task }

abbrev provider : OidcProviderPolicy
provider = record {
  issuer = issuer;
  audience = text "a";
  bindings = binding (text "one") ∷ binding (text "two") ∷ [];
}

abbrev policy : OidcPolicy
policy = record { version = oidc_policy_version; providers = provider ∷ [] }

-- All texts are taken for one host's.
abbrev parse : Text → Option Url
parse value = some (record {
  scheme = text "https";
  host_str = some (text "ci.example.com");
  port_or_known_default = some 443;
  username = [];
  password = none;
  query = none;
  fragment = none;
})

abbrev values : List (Text × Value)
values =
    (text "iss", Value.string issuer)
    ∷ (text "sub", Value.string (text "two"))
    ∷ (text "aud", Value.array (some (text "a") ∷ []))
    ∷ (text "exp", Value.number (pos 900))
    ∷ (text "iat", Value.number (pos 400))
    ∷ (text "jti", Value.string (text "j"))
    ∷ []

abbrev claims : OidcClaims
claims = record {
  issuer = issuer;
  subject = text "two";
  expires_at = pos 900;
  issued_at = pos 400;
  jti = some (text "j");
  build_number = none;
  values = values;
}

valid : validate parse policy ≡ ok tt
unfolding validate list_beq validate_providers provider_refused valid_issuer len bytes utf8
    ends_with all is_ascii_alphanumeric bounded_graphic is_ascii_graphic contains validate_bindings
    binding_refused any claim_bindings_overlap get claim_refused valid_claim_name valid_task_binding
    strip_prefix is_lower_hex is_whitespace to_ascii_lowercase split_once contains_char
valid = refl

authorize-matching_example : authorize policy claims ≡ ok task
unfolding find list_beq binding_matches all get
authorize-matching_example =
    authorize-matching parse policy claims provider (binding (text "two")) valid refl
      (In.there In.here) refl

authorized : authorize policy claims ≡ ok task
unfolding authorize find filter only list_beq binding_matches all get
authorized = refl

accepted : validated_claims values issuer (text "a") (pos 500) ≡ ok claims
unfolding validated_claims get list_beq checked_sub ◌-ℤ◌ ◌+ℤ◌ assertion_refused exact_audience
    bounded_graphic len bytes utf8 all is_ascii_graphic
accepted = refl

validated_claims-Accepted_example : Accepted values issuer (text "a") (pos 500) claims
validated_claims-Accepted_example =
    validated_claims-Accepted values issuer (text "a") (pos 500) accepted

abbrev outside : Outside ℕ Text Text
outside = record {
  parse = parse;
  clock = λ w. (pos 500, suc w);
  fetch_discovery = λ url w. (err OidcVerifyError.unavailable, suc w);
  fetch_jwks = λ url w. (err OidcVerifyError.unavailable, suc w);
  from_jwk = λ parameters. some parameters;
}

abbrev verifier : ProviderVerifier
verifier = record { issuer = issuer; audience = text "a"; max_staleness = 3600 }

abbrev filled : Provider ℕ Text
filled = record {
  cache = record { keys = (text "k", text "s") ∷ []; fetched_at = pos 400 };
  refresh = record { last_soft_attempt = pos 0; last_forced_attempt = pos 0 };
  world = 0;
}

key-Given_example :
    Given outside verifier
      (text "k")
      (key outside verifier (text "k") filled).0
      (key outside verifier (text "k") filled).1
key-Given_example = key-Given outside verifier (text "k") filled

abbrev providers : Providers
providers = (issuer, verifier) ∷ []

discovered : discover_with_additional_ca parse true policy 3600 ≡ ok providers
unfolding discover_with_additional_ca insert_providers put
discovered = rw valid refl

discover-Configured_example :
    get providers issuer
    ≡ Option.map (verifier_of 3600) (find (λ c. c.issuer == issuer) policy.providers)
discover-Configured_example = discover-Configured parse 3600 true policy issuer discovered

abbrev jwt : Jwt Text
jwt = record {
  decode_header = λ assertion.
      some (record { is_rs256 = true; typ = some (text "JWT"); kid = some (text "k") });
  unverified_issuer = λ assertion. some issuer;
  decode = λ assertion k validation. some values;
}

abbrev set : VerifierSet ℕ Text
set = record {
  states = λ issuer. record { cache = filled.cache; refresh = filled.refresh };
  world = 0;
}

verifies : (verify outside providers jwt (text "t") set).0 ≡ ok claims
unfolding verify key cache_is_usable saturating_sub ◌-ℤ◌ ◌+ℤ◌ get list_beq len bytes utf8
verifies = accepted

verify-Provides_example :
    Verifies outside providers jwt
      (text "t")
      (verify outside providers jwt (text "t") set).0
      (verify outside providers jwt (text "t") set).1
verify-Provides_example = verify-Provides outside providers jwt (text "t") set

abbrev service : OidcExchangeService ℕ Text
service = record {
  verify = λ assertion w. (ok claims, suc w);
  policy = policy;
  ledger = ledger;
  keys = ring;
  issuer = text "i";
  output_audience = text "o";
  token_ttl = 60;
  encode = sign;
  sha256 = λ bytes. bytes;
}

abbrev start : State OidcMetrics ℕ
start = record {
  metrics = record { requests = 0; issued = 0; denied = 0; replayed = 0; errors = 0 };
  world = 0;
}

issues : (exchange service readings (text "t") start).0 ≡ ok (text "ks")
unfolding exchange sign_at get list_beq replay_identifier replay_preimage
issues = rw authorized refl

exchange-counts_example :
    Counted service readings
      (text "t")
      start
      (exchange service readings (text "t") start).0
      (exchange service readings (text "t") start).1.metrics
exchange-counts_example = exchange-counts service readings (text "t") start

exchange-issues_example :
    (claims : OidcClaims) × (task : WorkloadTaskBinding) × (replay : Text) × (key : Text)
    × ((service.verify (text "t") start.world).0 ≡ ok claims)
    × (authorize service.policy claims ≡ ok task)
    × (replay_identifier service.sha256 claims ≡ some replay)
    × (service.ledger.use_once replay claims.expires_at (service.verify (text "t") start.world).1
        ≡ (ok tt, (exchange service readings (text "t") start).1.world))
    × (in_window service.keys.current_not_before service.keys.current_not_after readings.signed_at
        ≡ true)
    × (get service.keys.keys service.keys.current_kid ≡ some key)
    × (service.encode service.keys.current_kid key (output_claims service readings claims task)
        ≡ some (text "ks"))
exchange-issues_example = exchange-issues service readings (text "t") start issues
