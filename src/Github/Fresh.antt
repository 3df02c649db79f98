-- ===== src/Github/Fresh.antt =====
-- src/github.rs: the keys that `GitHubVerifier::key` gives.
use github_oidc_exchange.Prelude.{
  ◌≡◌, refl, inl, inr, true, some, nat_eq, list_eq, Result, ok, err, Bool-cases, Option-cases, get,
}
use github_oidc_exchange.Text.{Text}
use github_oidc_exchange.Effects.Triple.{Triple, bind}
use github_oidc_exchange.Github.{VerifyError}
use github_oidc_exchange.Github.Cache.{
  Outside, GitHubVerifier, Keys, RefreshAttempt, cache_is_usable, refresh_for_unknown_kid_if_due,
  has_key,
}
use github_oidc_exchange.Github.Key.{key_after_refresh, key, refreshed_key, outcome, unless_failed}

module _ {W K J : Type 0} (o : Outside W K J) (p : GitHubVerifier) where
  abbrev Any : Keys W K → Type 0
  Any s = Unit

  -- A key that is given is the cache's key of that `kid`, and the cache is usable by the last
  -- reading of the clock.
  abbrev pub Cached : Text → Result K VerifyError → Keys W K → Type 0
  Cached kid (ok k) s =
      (w : W) × (s.world ≡ (o.clock w).1)
      × (cache_is_usable s.cache (o.clock w).0 p.max_staleness ≡ true)
      × (get s.cache.keys kid ≡ some k)
  Cached kid (err x) s = Unit

  unless_failed-Cached :
      (kid : Text) (r : Result RefreshAttempt VerifyError) (x : VerifyError) (s : Keys W K)
      → Cached kid (unless_failed o p {B = K} r x s).0 (unless_failed o p {B = K} r x s).1
  unless_failed-Cached kid (ok a) x s = tt
  unless_failed-Cached kid (err y) x s = tt

  key_after_refresh-Cached :
      (kid : Text) (r : Result RefreshAttempt VerifyError)
      → Triple Any (key_after_refresh o p kid r) (Cached kid)
  unfolding key_after_refresh
  key_after_refresh-Cached kid r s _ =
      elim (Bool-cases (cache_is_usable s.cache (o.clock s.world).0 p.max_staleness)) [
        | inr stale ↦ rw stale (unless_failed-Cached kid r _ _)
        | inl usable ↦ elim (Option-cases (get s.cache.keys kid)) [
          | inl missing ↦ rw (usable, missing) (unless_failed-Cached kid r _ _)
          | inr (k, found) ↦ rw (usable, found) (s.world, refl, usable, found)
        ]
      ]

  refreshed_key-Cached : (kid : Text) → Triple Any (refreshed_key o p kid) (Cached kid)
  refreshed_key-Cached kid =
      bind Any (λ r. Any) (Cached kid) (outcome o p (refresh_for_unknown_kid_if_due o p kid))
        (key_after_refresh o p kid) (λ s _. tt) (key_after_refresh-Cached kid) (λ x s _. tt)

  -- A key that `key` gives stands in the cache under its `kid`, and the cache is not older than the
  -- configured staleness by the last reading of the clock.
  pub key-Cached : (kid : Text) (s : Keys W K) → Cached kid (key o p kid s).0 (key o p kid s).1
  unfolding key
  key-Cached kid s =
      elim (Bool-cases (cache_is_usable s.cache (o.clock s.world).0 p.max_staleness)) [
        | inr stale ↦ elim (Bool-cases (has_key (get s.cache.keys kid))) [
          | inl kept ↦ rw (stale, kept) tt
          | inr missing ↦ rw (stale, missing) (refreshed_key-Cached kid _ tt)
        ]
        | inl usable ↦ elim (Option-cases (get s.cache.keys kid)) [
          | inl missing ↦ rw (usable, missing) (refreshed_key-Cached kid _ tt)
          | inr (k, found) ↦ rw (usable, found) (s.world, refl, usable, found)
        ]
      ]
