-- ===== src/Oidc/Fresh.antt =====
-- src/oidc.rs: the keys that `ProviderVerifier::key` gives, and the rate of its forced refreshes.
use github_oidc_exchange.Prelude.{
  ◌≡◌, refl, inl, inr, true, some, nat_eq, list_eq, Result, ok, err, Bool-cases, Option-cases, get,
  is_empty,
}
use github_oidc_exchange.Text.{Text}
use github_oidc_exchange.Effects.{◌>>◌}
use github_oidc_exchange.Effects.Triple.{Triple, bind}
use github_oidc_exchange.Oidc.{OidcVerifyError}
use github_oidc_exchange.Oidc.Cache.{
  Outside, ProviderVerifier, Provider, cache_is_usable, key_after_refresh, key,
  refresh_for_unknown_kid_if_due,
}

module _ {W K J : Type 0} (o : Outside W K J) (p : ProviderVerifier) where
  abbrev Any : Provider W K → Type 0
  Any s = Unit

  -- A key that is given is the cache's key of that `kid`, and the cache is usable by the last
  -- reading of the clock.
  abbrev pub Given : Text → Result K OidcVerifyError → Provider W K → Type 0
  Given kid (ok k) s =
      (w : W) × (s.world ≡ (o.clock w).1)
      × (cache_is_usable s.cache (o.clock w).0 p.max_staleness ≡ true)
      × (get s.cache.keys kid ≡ some k)
  Given kid (err x) s = Unit

  key_after_refresh-Given : (kid : Text) → Triple Any (key_after_refresh o p kid) (Given kid)
  unfolding key_after_refresh
  key_after_refresh-Given kid s _ =
      elim (Bool-cases (cache_is_usable s.cache (o.clock s.world).0 p.max_staleness)) [
        | inr stale ↦ rw stale tt
        | inl usable ↦ elim (Option-cases (get s.cache.keys kid)) [
          | inl missing ↦ rw (usable, missing) tt
          | inr (k, found) ↦ rw (usable, found) (s.world, refl, usable, found)
        ]
      ]

  -- A key that `key` gives stands in the cache under its `kid`, and the cache is not too old by the
  -- last reading of the clock.
  pub key-Given : (kid : Text) (s : Provider W K) → Given kid (key o p kid s).0 (key o p kid s).1
  unfolding key
  key-Given kid s =
      elim (Bool-cases (cache_is_usable s.cache (o.clock s.world).0 p.max_staleness)) [
        | inr stale ↦ elim (Bool-cases (is_empty s.cache.keys)) [
          | inr kept ↦ rw (stale, kept) tt
          | inl empty ↦ rw (stale, empty) (refreshed _ tt)
        ]
        | inl usable ↦ elim (Option-cases (get s.cache.keys kid)) [
          | inl missing ↦ rw (usable, missing) (refreshed _ tt)
          | inr (k, found) ↦ rw (usable, found) (s.world, refl, usable, found)
        ]
      ]
    where
      refreshed :
          Triple Any (refresh_for_unknown_kid_if_due o p >> key_after_refresh o p kid) (Given kid)
      refreshed =
          bind Any (λ r. Any) (Given kid) (refresh_for_unknown_kid_if_due o p)
            (λ _. key_after_refresh o p kid) (λ s _. tt) (λ _. key_after_refresh-Given kid)
            (λ x s _. tt)
