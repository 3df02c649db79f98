-- ===== src/Tests/Github.antt =====
-- src/github.rs at concrete inputs.
use github_oidc_exchange.Prelude.{
  ℕ, suc, ◌≡◌, refl, false, true, [], ◌∷◌, some, ok, arith, nat_eq, list_eq, list_beq, get, put,
  any, all,
}
use github_oidc_exchange.Prelude.Int.{pos, ◌+ℤ◌, ◌-ℤ◌, checked_sub, saturating_sub}
use github_oidc_exchange.Text.{
  Text, text, len, bytes, utf8, strip_prefix, starts_with, ends_with, contains_text, contains_char,
  split, split_once, split_once_text, rsplit_once, is_ascii_digit, is_ascii_graphic,
  is_ascii_alphanumeric, is_ascii_lowercase, is_lower_hex,
}
use github_oidc_exchange.Contract.{github_issuer}
use github_oidc_exchange.Github.{GitHubClaims, Audience}
use github_oidc_exchange.Github.Checks.{
  is_exactly, numeric_identifier, bounded_ascii, github_slug, github_repository, git_sha1,
  valid_git_ref, workflow_reference, subject_suffix, suffix_consistent, provenance_consistent,
}
use github_oidc_exchange.Github.Attempt.{serialize, deserialize}
use github_oidc_exchange.Github.RoundTrip.{deserialize-serialize}
use github_oidc_exchange.Github.Accept.{claims_refused, accepted_claims}
use github_oidc_exchange.Github.Cache.{
  Outside, GitHubVerifier, Keys, attempted_recently, cache_age_seconds, cache_is_usable, has_key,
  run_refresh, usable_keys, refresh_now, record_refresh_failure, forced_refresh,
  refresh_for_unknown_kid_if_due,
}
use github_oidc_exchange.Github.Key.{key, key_after_refresh}
use github_oidc_exchange.Github.Fresh.{Cached, key-Cached}
use github_oidc_exchange.Github.Refreshes.{
  Refreshed, ticked, run_refresh-Refreshed, refresh_for_unknown_kid-rate,
}
use github_oidc_exchange.Github.Verify.{Jwt, verify}
use github_oidc_exchange.Github.Verified.{Verifies, verify-Verifies}

deserialize-serialize_example : deserialize (serialize 4294967295) ≡ some 4294967295
deserialize-serialize_example = deserialize-serialize 4294967295 (omega arith)

-- The world is the time; the document holds one key.
abbrev pub outside : Outside ℕ Text Text
outside = record {
  clock = λ w. (pos w, suc w);
  fetch_jwks = λ url w. (
    ok (
        record {
          key_id = some (text "g");
          is_rs256 = true;
          is_signature = true;
          parameters = text "p";
        }
        ∷ []),
    suc w,
  );
  from_jwk = λ parameters. some parameters;
}

abbrev pub verifier : GitHubVerifier
verifier = record { audience = text "a"; jwks_url = text "u"; max_staleness = 21600 }

abbrev pub cold : Keys ℕ Text
cold = record {
  cache = record { keys = []; fetched_at = pos 0 };
  refresh = record {
    last_soft_attempt = pos 0;
    last_forced_attempt = pos 0;
    last_forced_failed = false;
  };
  refresh_failures = 0;
  world = 500;
}

key-Cached_example :
    Cached outside verifier
      (text "g")
      (key outside verifier (text "g") cold).0
      (key outside verifier (text "g") cold).1
key-Cached_example = key-Cached outside verifier (text "g") cold

run_refresh-Refreshed_example :
    Refreshed outside verifier
      (text "g")
      cold
      (run_refresh outside verifier cold).0
      (run_refresh outside verifier cold).1
run_refresh-Refreshed_example = run_refresh-Refreshed outside verifier (text "g") cold

soon :
    attempted_recently
      (pos 500)
      (outside.clock (refresh_for_unknown_kid_if_due outside verifier (text "x") cold).1.world).0
    ≡ true
unfolding attempted_recently saturating_sub ◌-ℤ◌ refresh_for_unknown_kid_if_due forced_refresh
    run_refresh refresh_now usable_keys put get record_refresh_failure
soon = refl

due : attempted_recently (pos 0) (pos 500) ≡ false
unfolding attempted_recently
due = refl

absent : has_key (get cold.cache.keys (text "x")) ≡ false
unfolding get
absent = refl

refresh_for_unknown_kid-rate_example :
    (refresh_for_unknown_kid_if_due outside verifier
      (text "y")
      (refresh_for_unknown_kid_if_due outside verifier (text "x") cold).1).1
    ≡ ticked outside verifier (refresh_for_unknown_kid_if_due outside verifier (text "x") cold).1
refresh_for_unknown_kid-rate_example =
    refresh_for_unknown_kid-rate outside verifier (text "x") (text "y") cold absent due soon

abbrev sha : Text
sha = text "0123456789abcdef0123456789abcdef01234567"

abbrev workflow : Text
workflow = text "o/r/.github/workflows/w.yml@refs/heads/main"

abbrev pub claims : GitHubClaims
claims = record {
  iss = github_issuer;
  sub = text "repo:o/r:ref:refs/heads/main";
  aud = Audience.one (text "a");
  exp = pos 1000;
  iat = pos 500;
  nbf = pos 500;
  jti = text "j";
  actor_id = text "77";
  actor = text "ann";
  repository = text "o/r";
  repository_id = text "20";
  repository_owner_id = text "10";
  sha = sha;
  run_id = text "1";
  run_attempt = 1;
  workflow_ref = workflow;
  workflow_sha = sha;
  job_workflow_ref = workflow;
  job_workflow_sha = sha;
  event_name = text "push";
  git_ref = text "refs/heads/main";
}

-- The token is its own header and the name of its key.
abbrev pub jwt : Jwt Text
jwt = record {
  decode_header =
      λ assertion. some (record { is_rs256 = true; typ = some (text "JWT"); kid = some assertion });
  decode = λ assertion found validation. some claims;
}

consistent : provenance_consistent claims ≡ true
unfolding provenance_consistent split_once subject_suffix strip_prefix suffix_consistent
    bounded_ascii len bytes utf8 all is_ascii_graphic list_beq starts_with ends_with
    workflow_reference split_once_text rsplit_once github_repository split github_slug
    is_ascii_alphanumeric is_ascii_digit is_ascii_lowercase valid_git_ref any contains_text
    contains_char
consistent = refl

accepted : accepted_claims (text "a") (pos 505) claims ≡ ok claims
unfolding accepted_claims checked_sub ◌-ℤ◌ ◌+ℤ◌ claims_refused is_exactly list_beq
    numeric_identifier bounded_ascii len bytes utf8 all is_ascii_digit is_ascii_graphic
    github_repository split github_slug is_ascii_alphanumeric is_ascii_lowercase git_sha1
    is_lower_hex valid_git_ref any starts_with strip_prefix ends_with contains_text contains_char
accepted = rw consistent refl

pub verifies : (verify outside verifier jwt (text "g") cold).0 ≡ ok claims
unfolding verify key cache_is_usable cache_age_seconds saturating_sub ◌-ℤ◌ get
    refresh_for_unknown_kid_if_due attempted_recently forced_refresh run_refresh refresh_now
    usable_keys put list_beq record_refresh_failure key_after_refresh len bytes utf8
verifies = accepted

verify-Verifies_example :
    Verifies outside verifier jwt
      (text "g")
      (verify outside verifier jwt (text "g") cold).0
      (verify outside verifier jwt (text "g") cold).1
verify-Verifies_example = verify-Verifies outside verifier jwt (text "g") cold
