-- ===== src/Github/Key.antt =====
-- src/github.rs: the search for a key, in the cache and after a refresh.
-- The clock, the fetch of the document and the decoding of a key are parameters over the world.
use github_oidc_exchange.Prelude.{
  Option, none, some, Result, ok, err, nat_eq, list_eq, if◌then◌else◌, get,
}
use github_oidc_exchange.Text.{Text}
use github_oidc_exchange.Effects.{◌>>=◌, return, fail}
use github_oidc_exchange.Github.Cache.{
  Outside, GitHubVerifier, V, RefreshAttempt, cache_is_usable, read_clock, read_cache, has_key,
  refresh_for_unknown_kid_if_due, past_hard_staleness, empty_or_past,
}
use github_oidc_exchange.Github.{VerifyError, invalid}

module _ {W K J : Type 0} (o : Outside W K J) (p : GitHubVerifier) where
  -- The result of a step as a value.
  abbrev pub outcome : {A : Type 0} → V o p A → V o p (Result A VerifyError)
  outcome m s = (ok (m s).0, (m s).1)

  abbrev pub unless_failed : {A B : Type 0} → Result A VerifyError → VerifyError → V o p B
  unless_failed (ok a) e = fail e
  unless_failed (err x) e = fail x

  abbrev pub found_or : Option K → V o p K → V o p K
  found_or (some key) otherwise = return key
  found_or none otherwise = otherwise

  -- The second look at the cache, after the refresh.
  unfoldable pub key_after_refresh : Text → Result RefreshAttempt VerifyError → V o p K
  key_after_refresh kid refresh_result = do
    cache ← read_cache o p
    now ← read_clock o p
    if cache_is_usable cache now p.max_staleness
        then found_or (get cache.keys kid) (unless_failed refresh_result invalid)
        else unless_failed refresh_result empty_or_past

  abbrev pub refreshed_key : Text → V o p K
  refreshed_key kid = outcome (refresh_for_unknown_kid_if_due o p kid) >>= key_after_refresh kid

  unfoldable pub key : Text → V o p K
  key kid = do
    cache ← read_cache o p
    now ← read_clock o p
    if cache_is_usable cache now p.max_staleness
        then found_or (get cache.keys kid) (refreshed_key kid)
        else if has_key (get cache.keys kid)
        then fail past_hard_staleness
        else refreshed_key kid
