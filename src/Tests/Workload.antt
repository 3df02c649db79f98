-- ===== src/Tests/Workload.antt =====
-- src/workload.rs at concrete inputs.
use github_oidc_exchange.Prelude.{
  true, ℕ, suc, ◌≡◌, refl, [], ◌∷◌, none, some, ok, any, all, filter, get, contains, collect_set,
  only, list_beq, In, nat_eq, list_eq,
}
use github_oidc_exchange.Prelude.Int.{pos}
use github_oidc_exchange.Text.{
  Text, text, utf8, bytes, len, strip_prefix, contains_char, split, split_once, is_lower_hex,
  is_whitespace, to_ascii_lowercase,
}
use github_oidc_exchange.Sort.{sort}
use github_oidc_exchange.Contract.{workload_policy_version}
use github_oidc_exchange.Effects.{as_i64}
use github_oidc_exchange.Exchange.{State}
use github_oidc_exchange.Keys.{sign_at}
use github_oidc_exchange.Workload.{
  TokenReviewResponse, WorkloadPolicy, WorkloadIdentity, WorkloadTaskBinding,
}
use github_oidc_exchange.Workload.Identities.{
  bounded_non_whitespace, canonical_email, canonical_user_id, two_segments, name_refused,
  roles_refused, task_refused, validate_identities, validate, authorize,
}
use github_oidc_exchange.Workload.Review.{exact_audience, reviewed_username, validate_token_review}
use github_oidc_exchange.Workload.Accepted.{Authenticates, validate_token_review-Authenticates}
use github_oidc_exchange.Workload.Unique.{authorize-listed}
use github_oidc_exchange.Workload.Service.{
  WorkloadMetrics, WorkloadExchangeService, issue, exchange,
}
use github_oidc_exchange.Workload.Issue.{Spent}
use github_oidc_exchange.Workload.Issued.{Counted, reviewed, exchange-tallies, exchange-task}
use github_oidc_exchange.Tests.Exchanges.{ring, sign, ledger, readings}

abbrev pub task : WorkloadTaskBinding
task = record {
  service = text "ci";
  owner_canonical_user_id = text "usr_0123456789abcdef0123456789abcdef";
  owner_email = text "ann@example.com";
}

abbrev plain : WorkloadIdentity
plain = record {
  username = text "system:serviceaccount:a:b";
  subject = text "kubernetes:serviceaccount:a:b";
  roles = text "reader" ∷ [];
  task = none;
}

abbrev tasked : WorkloadIdentity
tasked = record {
  username = text "system:serviceaccount:a:c";
  subject = text "kubernetes:serviceaccount:a:c";
  roles = [];
  task = some task;
}

abbrev policy : WorkloadPolicy
policy = record { version = workload_policy_version; identities = plain ∷ tasked ∷ [] }

valid : validate policy ≡ ok tt
unfolding validate validate_identities list_beq strip_prefix split two_segments name_refused
    contains_char contains roles_refused collect_set any is_whitespace task_refused
    bounded_non_whitespace len bytes utf8 canonical_user_id all is_lower_hex canonical_email
    split_once to_ascii_lowercase
valid = refl

authorize-listed_example :
    authorize policy tasked.username ≡ ok (record tasked { roles = sort tasked.roles })
authorize-listed_example = authorize-listed policy tasked valid (In.there In.here)

authorized : authorize policy tasked.username ≡ ok tasked
unfolding authorize filter only list_beq sort
authorized = refl

abbrev pub service : WorkloadExchangeService ℕ Text Text
service = record {
  reviewer = λ token audience w. (ok tasked.username, suc w);
  policy = policy;
  keys = ring;
  task_keys = ring;
  ledger = ledger;
  issuer = text "i";
  input_audience = text "a";
  output_audience = text "o";
  task_output_audience = text "t";
  token_ttl = 60;
  insecure_decode = λ token. some (record { jti = text "j"; exp = pos 600 });
  encode = sign;
  encode_task = sign;
}

abbrev start : State WorkloadMetrics ℕ
start = record { metrics = record { requests = 0; issued = 0; denied = 0; errors = 0 }; world = 0 }

issues : (exchange service readings (text "t") start).0 ≡ ok (text "ks")
unfolding exchange issue sign_at get list_beq bounded_non_whitespace any is_whitespace len bytes
    utf8 as_i64
issues = rw authorized refl

exchange-tallies_example :
    Counted service readings
      (text "t")
      start
      (exchange service readings (text "t") start).0
      (exchange service readings (text "t") start).1.metrics
exchange-tallies_example = exchange-tallies service readings (text "t") start

exchange-task_example :
    Spent service readings
      (text "t")
      tasked
      task
      (text "ks")
      (reviewed service readings (text "t") start).world
      (exchange service readings (text "t") start).1.world
exchange-task_example =
    exchange-task service readings (text "t") start tasked.username tasked task refl authorized refl
      issues

abbrev response : TokenReviewResponse
response = record {
  status = some (record {
    authenticated = some true;
    audiences = some (text "a" ∷ []);
    user = some (record { username = some (text "u") });
  });
}

reviewed_ok : validate_token_review response (text "a") ≡ ok (text "u")
unfolding validate_token_review exact_audience reviewed_username list_beq
reviewed_ok = refl

validate_token_review-Authenticates_example : Authenticates response (text "a") (text "u")
validate_token_review-Authenticates_example =
    validate_token_review-Authenticates response (text "a") (text "u") reviewed_ok
