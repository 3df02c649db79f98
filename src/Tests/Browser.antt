-- ===== src/Tests/Browser.antt =====
-- src/browser_hop1.rs at concrete inputs.
use github_oidc_exchange.Prelude.{
  ℕ, suc, ◌≡◌, refl, true, [], ◌∷◌, some, none, ok, nat_eq, list_eq, list_beq, filter, only, get,
  any, all,
}
use github_oidc_exchange.Prelude.Int.{pos, ◌+ℤ◌, ◌-ℤ◌, checked_sub}
use github_oidc_exchange.Text.{
  Text, text, len, bytes, utf8, strip_prefix, split_once, is_lower_hex, is_whitespace,
  to_ascii_lowercase,
}
use github_oidc_exchange.Sort.{sort}
use github_oidc_exchange.Contract.{workload_policy_version}
use github_oidc_exchange.Exchange.{State}
use github_oidc_exchange.Keys.{sign_at}
use github_oidc_exchange.Workload.{WorkloadPolicy}
use github_oidc_exchange.Workload.Identities.{authorize}
use github_oidc_exchange.Browser.{
  BrowserHop1RequestClaims, BrowserHop1Operation, canonical_email, canonical_user_id, operation_id,
}
use github_oidc_exchange.Browser.Verify.{
  StewardBrowserAssertionVerifier, Jwt, claims_refused, verify,
}
use github_oidc_exchange.Browser.Service.{BrowserHop1Metrics, BrowserHop1ExchangeService, exchange}
use github_oidc_exchange.Browser.Issued.{Counted, Attested, exchange-reckons, exchange-attests}
use github_oidc_exchange.Browser.Accepted.{Attests, verify-Attests}
use github_oidc_exchange.Tests.Exchanges.{ring, sign, ledger, readings}

abbrev claims : BrowserHop1RequestClaims
claims = record {
  iss = text "https://s";
  sub = text "usr_0123456789abcdef0123456789abcdef";
  aud = text "a";
  exp = pos 560;
  iat = pos 500;
  nbf = pos 500;
  jti = text "j";
  email = text "ann@example.com";
  email_verified = true;
  operation = BrowserHop1Operation.github_oauth_connect;
  operation_id = text "op_0123456789abcdef0123456789abcdef";
}

abbrev verifier : StewardBrowserAssertionVerifier Text
verifier = record {
  issuer = text "https://s";
  audience = text "a";
  keys = (text "k", text "p") ∷ [];
}

-- The token is the name of its key.
abbrev jwt : Jwt Text
jwt = record {
  decode_header =
      λ assertion. some (record { is_es256 = true; typ = some (text "JWT"); kid = some assertion });
  decode = λ assertion key validation. some claims;
}

verified : verify jwt verifier (text "k") (pos 500) ≡ ok claims
unfolding verify len bytes utf8 list_beq get checked_sub ◌-ℤ◌ ◌+ℤ◌ claims_refused canonical_user_id
    canonical_email operation_id strip_prefix all is_lower_hex split_once any is_whitespace
    to_ascii_lowercase
verified = refl

verify-Attests_example :
    Attests jwt verifier (text "k") (pos 500) (verify jwt verifier (text "k") (pos 500))
verify-Attests_example = verify-Attests jwt verifier (text "k") (pos 500)

abbrev policy : WorkloadPolicy
policy = record {
  version = workload_policy_version;
  identities =
      record {
        username = text "u";
        subject = text "s";
        roles = text "browser-hop1-issuer" ∷ [];
        task = none;
      }
      ∷ [];
}

abbrev pub service : BrowserHop1ExchangeService ℕ Text
service = record {
  verify = λ assertion w. (verify jwt verifier assertion (pos 500), suc w);
  policy = policy;
  ledger = ledger;
  keys = ring;
  issuer = text "i";
  output_audience = text "o";
  token_ttl = 60;
  encode = sign;
}

abbrev pub start : State BrowserHop1Metrics ℕ
start = record {
  metrics = record { requests = 0; issued = 0; denied = 0; replayed = 0; errors = 0 };
  world = 0;
}

pub issues : (exchange service readings (text "u") (text "k") start).0 ≡ ok (text "ks")
unfolding exchange authorize filter only list_beq sort any sign_at get
issues = rw verified refl

exchange-reckons_example :
    Counted service readings
      (text "u")
      (text "k")
      start
      (exchange service readings (text "u") (text "k") start).0
      (exchange service readings (text "u") (text "k") start).1.metrics
exchange-reckons_example = exchange-reckons service readings (text "u") (text "k") start

exchange-attests_example :
    Attested service readings
      (text "u")
      (text "k")
      start
      (exchange service readings (text "u") (text "k") start).0
      (exchange service readings (text "u") (text "k") start).1.world
exchange-attests_example = exchange-attests service readings (text "u") (text "k") start
