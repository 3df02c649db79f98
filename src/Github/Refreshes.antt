-- ===== src/Github/Refreshes.antt =====
-- src/github.rs: what a refresh of the keys writes, and how often one for an unknown key is made.
use github_oidc_exchange.Prelude.{
  ◌≡◌, ◌⊎◌, List, ◌∷◌, none, refl, ap, subst, sym, ◌∙◌, inl, inr, true, false, [], nat_eq, list_eq,
  Result, ok, err, Bool, Bool-cases, Result-cases, get, is_empty,
}
use github_oidc_exchange.Prelude.Int.{ℤ}
use github_oidc_exchange.Text.{Text}
use github_oidc_exchange.Effects.{bump}
use github_oidc_exchange.Github.{VerifyError}
use github_oidc_exchange.Oidc.Cache.{Jwk}
use github_oidc_exchange.Github.Published.{published, usable_keys-published}
use github_oidc_exchange.Github.Cache.{
  Outside, GitHubVerifier, Keys, FetchError, attempted_recently, usable_keys, refresh_now,
  run_refresh, record_refresh_failure, refresh_for_unknown_kid_if_due, limited, has_key,
  note_forced, forced_refresh,
}

module _ {W K J : Type 0} (o : Outside W K J) (p : GitHubVerifier) where
  abbrev fetching : Keys W K → Result (List (Jwk J)) FetchError × W
  fetching before = o.fetch_jwks p.jwks_url before.world

  -- A refresh that succeeds leaves for the key ID exactly the key that the fetched document
  -- publishes, in a set that is not empty and is dated by the clock after the fetch. One that fails
  -- leaves the cache and counts a failure; the fetch failed, or the document publishes no key.
  abbrev pub Refreshed : {A : Type 0} → Text → Keys W K → Result A VerifyError → Keys W K → Type 0
  Refreshed kid before (ok a) after =
      (document : List (Jwk J)) × ((fetching before).0 ≡ ok document)
      × (get after.cache.keys kid ≡ published o p document kid)
      × (is_empty after.cache.keys ≡ false)
      × (after.cache.fetched_at ≡ (o.clock (fetching before).1).0)
      × (after.world ≡ (o.clock (fetching before).1).1)
      × (after.refresh ≡ before.refresh)
      × (after.refresh_failures ≡ before.refresh_failures)
  Refreshed kid before (err x) after =
      (((failure : FetchError) × ((fetching before).0 ≡ err failure))
        ⊎ ((document : List (Jwk J)) × ((fetching before).0 ≡ ok document)
            × (published o p document kid ≡ none)))
      × (after.cache ≡ before.cache)
      × (after.refresh ≡ before.refresh)
      × (after.refresh_failures ≡ bump before.refresh_failures)

  unpublished :
      (document : List (Jwk J)) (kid : Text)
      → is_empty (usable_keys o p [] document) ≡ true
      → published o p document kid ≡ none
  unfolding get
  unpublished document kid empty =
      sym (usable_keys-published o p document kid) ∙ get-empty (usable_keys o p [] document) empty
    where
      get-empty : (keys : List (Text × K)) → is_empty keys ≡ true → get keys kid ≡ none
      get-empty [] h = refl
      get-empty (entry ∷ keys) h = cc

  -- A refresh writes what `Refreshed` says of any key ID, whether it succeeds or fails.
  pub run_refresh-Refreshed :
      (kid : Text) (s : Keys W K) → Refreshed kid s (run_refresh o p s).0 (run_refresh o p s).1
  unfolding run_refresh refresh_now record_refresh_failure
  run_refresh-Refreshed kid s = elim (Result-cases (o.fetch_jwks p.jwks_url s.world).0) [
    | inr (FetchError.sending x, e) ↦ rw e (inl (FetchError.sending x, e), refl, refl, refl)
    | inr (FetchError.status x, e) ↦ rw e (inl (FetchError.status x, e), refl, refl, refl)
    | inr (FetchError.decoding x, e) ↦ rw e (inl (FetchError.decoding x, e), refl, refl, refl)
    | inl (document, e) ↦ elim (Bool-cases (is_empty (usable_keys o p [] document))) [
      | inl empty ↦
          rw (e, empty) (inr (document, e, unpublished document kid empty), refl, refl, refl)
      | inr usable ↦
          rw (e, usable)
            (document, e, usable_keys-published o p document kid, usable, refl, refl, refl, refl)
    ]
  ]

  -- The state after the clock is read, and nothing else.
  abbrev pub ticked : Keys W K → Keys W K
  ticked s = record s { world = (o.clock s.world).1 }

  noted-attempt :
      {A : Type 0} (now : ℤ) (r : Result A VerifyError × Keys W K) (before : Keys W K)
      → before.refresh.last_forced_attempt ≡ now
      → Refreshed [] before r.0 r.1
      → (note_forced o p r).1.refresh.last_forced_attempt ≡ now
  noted-attempt now (ok a, after) before h (_, _, _, _, _, _, kept, _) =
      ap (λ x. x.last_forced_attempt) kept ∙ h
  noted-attempt now (err x, after) before h (_, _, kept, _) =
      ap (λ x. x.last_forced_attempt) kept ∙ h

  forced_refresh-attempt :
      (now : ℤ) (s : Keys W K) → (forced_refresh o p now s).1.refresh.last_forced_attempt ≡ now
  unfolding forced_refresh
  forced_refresh-attempt now s =
      noted-attempt now (run_refresh o p started) started refl (run_refresh-Refreshed [] started)
    where
      started : Keys W K
      started = record s { refresh = record (s.refresh) { last_forced_attempt = now } }

  limited-still : (failed : Bool) (s : Keys W K) → (limited o p failed s).1 ≡ s
  limited-still true s = refl
  limited-still false s = refl

  -- Within 30 seconds of an attempt a forced refresh only reads the clock.
  refresh_for_unknown_kid-still :
      (kid : Text) (s : Keys W K)
      → attempted_recently s.refresh.last_forced_attempt (o.clock s.world).0 ≡ true
      → (refresh_for_unknown_kid_if_due o p kid s).1 ≡ ticked s
  unfolding refresh_for_unknown_kid_if_due
  refresh_for_unknown_kid-still kid s recent = elim (Bool-cases (has_key (get s.cache.keys kid))) [
    | inl there ↦ rw there refl
    | inr missing ↦ rw (missing, recent) (limited-still s.refresh.last_forced_failed (ticked s))
  ]

  -- After a forced refresh, a request for any unknown key within 30 seconds makes no other: it only
  -- reads the clock.
  pub refresh_for_unknown_kid-rate :
      (kid again : Text) (s : Keys W K)
      → has_key (get s.cache.keys kid) ≡ false
      → attempted_recently s.refresh.last_forced_attempt (o.clock s.world).0 ≡ false
      → attempted_recently
          (o.clock s.world).0
          (o.clock (refresh_for_unknown_kid_if_due o p kid s).1.world).0
        ≡ true
      → (refresh_for_unknown_kid_if_due o p again (refresh_for_unknown_kid_if_due o p kid s).1).1
        ≡ ticked (refresh_for_unknown_kid_if_due o p kid s).1
  unfolding refresh_for_unknown_kid_if_due
  refresh_for_unknown_kid-rate kid again s missing due soon =
      refresh_for_unknown_kid-still again (refresh_for_unknown_kid_if_due o p kid s).1 (
        subst
          (λ t.
            attempted_recently t (o.clock (refresh_for_unknown_kid_if_due o p kid s).1.world).0
            ≡ true)
          (sym (attempt s missing due)) soon)
    where
      attempt :
          (s : Keys W K)
          → has_key (get s.cache.keys kid) ≡ false
          → attempted_recently s.refresh.last_forced_attempt (o.clock s.world).0 ≡ false
          → (refresh_for_unknown_kid_if_due o p kid s).1.refresh.last_forced_attempt
            ≡ (o.clock s.world).0
      attempt s missing due =
          rw (missing, due) (forced_refresh-attempt (o.clock s.world).0 (ticked s))
