-- ===== src/Tests/Replicas.antt =====
-- src/service.rs over src/github.rs and src/replay.rs at concrete inputs.
use github_oidc_exchange.Prelude.{
  ℕ, ◌≡◌, ◌≤◌, refl, true, false, is_ok, filter_map, list_beq, filter, only, get, all, contains, [],
  ◌∷◌, none, some, arith, nat_eq, list_eq, All, inr, eq-ok_of_is_ok,
}
use github_oidc_exchange.Prelude.Int.{pos, ◌+ℤ◌}
use github_oidc_exchange.Text.{
  Text, text, len, bytes, utf8, strip_prefix, starts_with, is_ascii_digit,
}
use github_oidc_exchange.Sort.{text_le, insert_sorted, sort}
use github_oidc_exchange.Policy.Checks.{
  decimal_identifier, numeric_identifier, optional_selector_matches,
}
use github_oidc_exchange.Policy.Authorize.{
  rule_matches_v6, verified_actor, actor_groups, optional_actor, actor_claims, authorize_v6,
  authorize,
}
use github_oidc_exchange.Service.Replicas.{
  Request, Deployment, ledger_call, ledger_calls, call_of, tokens,
}
use github_oidc_exchange.Service.Once.{tokens-le_one}
use github_oidc_exchange.Replay.Runs.{Call, InTime}
use github_oidc_exchange.Replay.{nanos}
use github_oidc_exchange.Tests.Store.{Records, records, here_now, records_laws, calendar_laws}
use github_oidc_exchange.Tests.Policy.{policy}
use github_oidc_exchange.Tests.Exchanges.{ring, sign, readings}
use github_oidc_exchange.Tests.Github.{outside, verifier, jwt, cold, claims, verifies}

abbrev deployment : Deployment ℕ Text Text Text Records
deployment = record {
  outside = outside;
  verifier = verifier;
  jwt = jwt;
  environment = records;
  policy = policy;
  keys = ring;
  issuer = text "i";
  output_audience = text "o";
  token_ttl = 60;
  encode = sign;
}

abbrev request : Request ℕ Text
request = record {
  assertion = text "g";
  readings = readings;
  now = pos 505000000000;
  metrics = record { requests = 0; issued = 0; denied = 0; replayed = 0; errors = 0 };
  verifier = cold;
  cleanup_continue = none;
  readiness = record { checked_at = none; ready = false };
}

admits : is_ok (authorize policy claims) ≡ true
unfolding authorize authorize_v6 list_beq starts_with strip_prefix numeric_identifier
    decimal_identifier len bytes utf8 is_ascii_digit all filter rule_matches_v6
    optional_selector_matches contains only optional_actor verified_actor get actor_claims
    actor_groups sort insert_sorted text_le
admits = refl

abbrev spent : Call
spent = record {
  now = pos 505000000000;
  jti = text "j";
  expires_at = pos 1000;
  cleanup_continue = none;
  readiness = record { checked_at = none; ready = false };
}

spends : ledger_call deployment request ≡ some spent
spends =
    let (identity, admitted) = eq-ok_of_is_ok (authorize policy claims) admits in
    rw (ledger_call, call_of, verifies, admitted) refl

in_time : All (InTime (text "j") (pos 1000)) (ledger_calls deployment (request ∷ request ∷ []))
unfolding filter_map nanos ◌+ℤ◌
in_time = rw (ledger_call, spends) ((omega arith, inr refl), ((omega arith, inr refl), tt))

tokens-le_one_example : tokens deployment (text "j") (request ∷ request ∷ []) (λ name. none) ≤ 1
tokens-le_one_example =
    tokens-le_one deployment here_now records_laws (text "j") (pos 1000) calendar_laws
      (request ∷ request ∷ []) (λ name. none) in_time
