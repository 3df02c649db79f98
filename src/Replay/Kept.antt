-- ===== src/Replay/Kept.antt =====
-- src/replay.rs: a `use_once` of any assertion leaves the records that are not expired.
use github_oidc_exchange.Prelude.{
  ℕ, zero, suc, ◌≡◌, ◌≢◌, refl, ap, ◌∙◌, inl, inr, false, not, ◌∷◌, ◌++◌, Option, none, some,
  Result, ok, arith, Option-cases, Result-cases, ◌==◌, nat_eq,
}
use github_oidc_exchange.Prelude.Int.{ℤ}
use github_oidc_exchange.Text.{Text}
use github_oidc_exchange.Effects.{return, fail}
use github_oidc_exchange.Effects.Triple.{Triple, bind, branch}
use github_oidc_exchange.Replay.{ReplayError, replayed, unavailable, DateTime, Lease}
use github_oidc_exchange.Replay.Record.{lease_name, retained_until, new_lease, expired}
use github_oidc_exchange.Replay.Ledger.{
  Environment, Ledger, CreateResult, UpdateResult, create, get_lease, update, put, reclaim_found,
  absent, after_update, or_unavailable, non_empty, with_version, reclaim_rounds, reclaim_expired,
  cleanup_one, recorded, use_once,
}
use github_oidc_exchange.Replay.Store.{
  StoreLaws, Shows, ReadBy, get_lease-ReadBy, credential-Has, create-Refuses,
}
use github_oidc_exchange.Replay.Cleanup.{Stands, other_name, cleanup_one-Stays}

module _ {S : Type 0} (e : Environment S) (view : S → Text → Option Lease) (laws : StoreLaws e view)
    (name : Text) (l : Lease) (now : DateTime) (fresh : expired e.chrono l now ≡ false) where
  abbrev Kept : Ledger S → Type 0
  Kept = Stands e view laws name l now fresh

  abbrev Keeps : {A : Type 0} → Result A ReplayError → Ledger S → Type 0
  Keeps r = Kept

  put-Keeps :
      (other : Text) (lease : Lease) (token : Text)
      → name ≢ other
      → Triple Kept (put e other lease token) Keeps
  unfolding put
  put-Keeps other lease token apart ledger h =
      elim (Option-cases (e.api.item_url (e.collection_url ++ (b'/' ∷ other)))) [
        | inl refused ↦ rw refused h
        | inr (url, accepted) ↦
            let kept : Kept (record ledger { api = (e.api.put token url lease ledger.api).1 }) =
              laws.put_others token url other lease ledger.api name accepted apart ∙ h in
            elim (Option-cases (e.api.put token url lease ledger.api).0) [
              | inl unsent ↦ rw (accepted, unsent) kept
              | inr (status, answered) ↦
                  rw (accepted, answered)
                    (branch Kept Keeps (status == 200) (return UpdateResult.updated) _ (λ _ s i. i)
                      (λ _.
                        branch Kept Keeps (status == 409) (return UpdateResult.conflict)
                          (fail unavailable) (λ _ s i. i) (λ _ s i. i))
                      _ kept)
            ]
      ]

  update-Keeps :
      (other : Text) (lease : Lease) → name ≢ other → Triple Kept (update e other lease) Keeps
  unfolding update
  update-Keeps other lease apart =
      bind Kept Keeps Keeps _ (put e other lease) (credential-Has e view laws name l)
        (λ token. put-Keeps other lease token apart) (λ x s h. h)

  create-Keeps : (lease : Lease) → Triple Kept (create e lease) Keeps
  create-Keeps lease s h = (create-Refuses e view laws lease name l s h).0

  reclaim_found-Keeps :
      (again : Ledger S → Result (Unit {0}) ReplayError × Ledger S) (left : ℕ) (other : Text)
      (replacement : Lease) (v : Text → Option Lease) (read : Option Lease)
      → v name ≡ some l
      → Triple Kept again Keeps
      → Triple
          (ReadBy e view laws v other (ok read))
          (reclaim_found e again left other replacement now read)
          Keeps
  unfolding reclaim_found
  reclaim_found-Keeps again left other replacement v none held h s (_, shown) =
      bind Kept Keeps Keeps (create e replacement) (absent e) (create-Keeps replacement) after
        (λ x s i. i) s (ap (λ w. w name) shown ∙ held)
    where
      after : (result : CreateResult) → Triple Kept (absent e result) Keeps
      after CreateResult.created = λ s i. i
      after CreateResult.conflict = λ s i. i
  reclaim_found-Keeps again left other replacement v (some existing) held h s (found, shown) =
      branch Kept Keeps (not (expired e.chrono existing now)) (fail replayed) _ (λ _ s i. i)
        (λ over.
          bind Kept Keeps Keeps (or_unavailable e (non_empty e existing.metadata.resource_version))
            _ (versioned (non_empty e existing.metadata.resource_version))
            (λ version.
              bind Kept Keeps Keeps (update e other (with_version e replacement version))
                (after_update e again left)
                (update-Keeps other (with_version e replacement version) (
                  other_name e view laws name l now fresh v other existing held found
                    (ground arith)))
                after (λ x s i. i))
            (λ x s i. i))
        s (ap (λ w. w name) shown ∙ held)
    where
      versioned : (version : Option Text) → Triple Kept (or_unavailable e version) Keeps
      versioned none = λ s i. i
      versioned (some version) = λ s i. i

      after : (result : UpdateResult) → Triple Kept (after_update e again left result) Keeps
      after UpdateResult.updated = λ s i. i
      after UpdateResult.conflict =
          branch Kept Keeps (left == 1) again (fail unavailable) (λ _. h) (λ _ s i. i)

  reclaim_rounds-Keeps :
      (rounds : ℕ) (other : Text) (replacement : Lease)
      → Triple Kept (reclaim_rounds e rounds other replacement now) Keeps
  unfolding reclaim_rounds
  reclaim_rounds-Keeps zero other replacement = λ s h. h
  reclaim_rounds-Keeps (suc left) other replacement = λ s h.
      bind (Shows e view laws (view s.api)) (ReadBy e view laws (view s.api) other) Keeps
        (get_lease e other)
        (reclaim_found e (reclaim_rounds e left other replacement now) left other replacement now)
        (get_lease-ReadBy e view laws (view s.api) other)
        (λ read.
          reclaim_found-Keeps (reclaim_rounds e left other replacement now) left other replacement
            (view s.api) read h (reclaim_rounds-Keeps left other replacement))
        (λ x t i. ap (λ w. w name) i.1 ∙ h) s refl

  recorded-Keeps :
      (other : Text) (lease : Lease) (result : CreateResult)
      → Triple Kept (recorded e other lease now result) Keeps
  unfolding reclaim_expired
  recorded-Keeps other lease CreateResult.created = cleanup_one-Stays e view laws name l now fresh
  recorded-Keeps other lease CreateResult.conflict =
      bind Kept Keeps Keeps (reclaim_expired e other lease now) (λ _. cleanup_one e now)
        (reclaim_rounds-Keeps 2 other lease) (λ _. cleanup_one-Stays e view laws name l now fresh)
        (λ x s i. i)

  -- `use_once` leaves every record that is not expired, whatever fails on the way.
  pub use_once-Keeps :
      (jti : Text) (expires_at : ℤ) → Triple Kept (use_once e now jti expires_at) Keeps
  unfolding use_once
  use_once-Keeps jti expires_at ledger h =
      elim (Result-cases (retained_until e.chrono expires_at (e.chrono.timestamp now))) [
        | inr (x, refused) ↦ rw refused h
        | inl (retained, kept) ↦
            elim (Result-cases (new_lease e.chrono (lease_name e.sha256 jti) retained now)) [
              | inr (x, refused) ↦ rw (kept, refused) h
              | inl (lease, made) ↦
                  rw (kept, made)
                    (bind Kept Keeps Keeps (create e lease)
                      (recorded e lease.metadata.name lease now) (create-Keeps lease)
                      (recorded-Keeps lease.metadata.name lease) (λ x s i. i) ledger h)
            ]
      ]
