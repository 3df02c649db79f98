-- ===== src/Replay/Used.antt =====
-- src/replay.rs: a `use_once` that succeeds leaves a record of the assertion, and the record makes
-- the next `use_once` of the assertion fail.
use github_oidc_exchange.Prelude.{
  ℕ, zero, suc, ◌≡◌, ◌≢◌, refl, subst, ◌∙◌, ◌⊎◌, inl, inr, false, not, Option, none, some, Result,
  ok, err, arith, Result-cases, Bool-cases, ◌==◌, nat_eq,
}
use github_oidc_exchange.Prelude.Int.{ℤ, pos, ◌+ℤ◌, ◌≤ℤ◌, ◌<ℤ◌}
use github_oidc_exchange.Text.{Text}
use github_oidc_exchange.Effects.{◌>>=◌, fail}
use github_oidc_exchange.Effects.Triple.{Triple, bind, branch}
use github_oidc_exchange.Replay.{
  ReplayError, replayed, unavailable, DateTime, nanos, Chrono, ChronoLaws, Lease,
}
use github_oidc_exchange.Replay.Record.{
  lease_name, retained_until, new_lease, expired, owned_ledger_lease,
}
use github_oidc_exchange.Replay.Retention.{expired-after_retention}
use github_oidc_exchange.Replay.Ledger.{
  Environment, Ledger, CreateResult, UpdateResult, create, get_lease, update, reclaim_found, absent,
  after_update, or_unavailable, non_empty, with_version, reclaim_rounds, reclaim_expired,
  cleanup_one, recorded, use_once,
}
use github_oidc_exchange.Replay.Store.{StoreLaws}
use github_oidc_exchange.Replay.Writes.{
  Stores, Anything, Created, create-Created, Updated, update-Updated,
}
use github_oidc_exchange.Replay.Cleanup.{cleanup_one-Stays}
use github_oidc_exchange.Replay.Once.{new_lease-name, use_once-Fails}

expired-same :
    (chrono : Chrono) (stored lease : Lease) (now : DateTime)
    → stored.spec ≡ lease.spec
    → stored.metadata.labels ≡ lease.metadata.labels
    → expired chrono stored now ≡ expired chrono lease now
unfolding expired owned_ledger_lease
expired-same chrono stored lease now spec labels = rw (spec, labels) refl

module _ {S : Type 0} (e : Environment S) (view : S → Text → Option Lease)
    (laws : StoreLaws e view) where
  abbrev Done : Lease → Result (Unit {0}) ReplayError → Ledger S → Type 0
  Done lease r ledger = r ≡ ok tt → Stores e view laws lease.metadata.name lease ledger

  failed : (lease : Lease) (x : ReplayError) (s : Ledger S) → Done lease (err x) s
  failed lease x s p = cc

  Updated-Done :
      (again : Ledger S → Result (Unit {0}) ReplayError × Ledger S) (left : ℕ) (lease : Lease)
      (version : Text) (result : UpdateResult)
      → Triple (Anything e view laws) again (Done lease)
      → Triple
          (Updated e view laws lease.metadata.name (with_version e lease version) (ok result))
          (after_update e again left result)
          (Done lease)
  Updated-Done again left lease version UpdateResult.updated h = λ s i _. i refl
  Updated-Done again left lease version UpdateResult.conflict h =
      branch _ (Done lease) (left == 1) again (fail unavailable) (λ _ s _. h s tt)
        (λ _ s _. failed lease unavailable s)

  reclaim_found-Done :
      (again : Ledger S → Result (Unit {0}) ReplayError × Ledger S) (left : ℕ) (lease : Lease)
      (now : DateTime) (read : Option Lease)
      → Triple (Anything e view laws) again (Done lease)
      → Triple
          (Anything e view laws)
          (reclaim_found e again left lease.metadata.name lease now read)
          (Done lease)
  unfolding reclaim_found
  reclaim_found-Done again left lease now none h =
      bind (Anything e view laws) (Created e view laws lease) (Done lease) (create e lease)
        (absent e) (create-Created e view laws lease) after (λ x s _. failed lease x s)
    where
      after :
          (result : CreateResult)
          → Triple (Created e view laws lease (ok result)) (absent e result) (Done lease)
      after CreateResult.created = λ s i _. i refl
      after CreateResult.conflict = λ s i. failed lease unavailable s
  reclaim_found-Done again left lease now (some existing) h =
      branch (Anything e view laws) (Done lease) (not (expired e.chrono existing now))
        (fail replayed) _ (λ _ s _. failed lease replayed s)
        (λ _.
          bind (Anything e view laws) (λ r. Anything e view laws) (Done lease)
            (or_unavailable e (non_empty e existing.metadata.resource_version))
            (λ version.
              update e lease.metadata.name (with_version e lease version)
              >>= after_update e again left)
            (λ s _. tt)
            (λ version.
              bind (Anything e view laws)
                (Updated e view laws lease.metadata.name (with_version e lease version))
                (Done lease) (update e lease.metadata.name (with_version e lease version))
                (after_update e again left)
                (update-Updated e view laws lease.metadata.name (with_version e lease version))
                (λ result. Updated-Done again left lease version result h)
                (λ x s _. failed lease x s))
            (λ x s _. failed lease x s))

  reclaim_rounds-Done :
      (rounds : ℕ) (lease : Lease) (now : DateTime)
      → Triple
          (Anything e view laws)
          (reclaim_rounds e rounds lease.metadata.name lease now)
          (Done lease)
  unfolding reclaim_rounds
  reclaim_rounds-Done zero lease now = λ s _. failed lease unavailable s
  reclaim_rounds-Done (suc left) lease now =
      bind (Anything e view laws) (λ r. Anything e view laws) (Done lease)
        (get_lease e lease.metadata.name)
        (reclaim_found e (reclaim_rounds e left lease.metadata.name lease now) left
          lease.metadata.name lease now)
        (λ s _. tt)
        (λ read.
          reclaim_found-Done (reclaim_rounds e left lease.metadata.name lease now) left lease now
            read (reclaim_rounds-Done left lease now))
        (λ x s _. failed lease x s)

  cleaned-Done :
      (lease : Lease) (now : DateTime)
      → expired e.chrono lease now ≡ false
      → Triple (Stores e view laws lease.metadata.name lease) (cleanup_one e now) (Done lease)
  cleaned-Done lease now fresh s (stored, held, spec, labels) _ = (
    stored,
    cleanup_one-Stays e view laws lease.metadata.name stored now
        (expired-same e.chrono stored lease now spec labels ∙ fresh) s held,
    spec,
    labels,
  )

  recorded-Done :
      (lease : Lease) (now : DateTime) (result : CreateResult)
      → expired e.chrono lease now ≡ false
      → Triple
          (Created e view laws lease (ok result))
          (recorded e lease.metadata.name lease now result)
          (Done lease)
  unfolding reclaim_expired
  recorded-Done lease now CreateResult.created fresh =
      λ s h. cleaned-Done lease now fresh s (h refl)
  recorded-Done lease now CreateResult.conflict fresh =
      bind _ (Done lease) (Done lease) (reclaim_expired e lease.metadata.name lease now)
        (λ _. cleanup_one e now) (λ s _. reclaim_rounds-Done 2 lease now s tt)
        (λ a s h. cleaned-Done lease now fresh s (h refl)) (λ x s _. failed lease x s)

  ≤ℤ-self : (now : DateTime) → now ≤ℤ now
  ≤ℤ-self now = omega arith

  fresh_made :
      ChronoLaws e.chrono
      → (name : Text) (expires_at : ℤ) (now later retained : DateTime) (lease : Lease)
      → retained_until e.chrono expires_at (e.chrono.timestamp now) ≡ ok retained
      → new_lease e.chrono name retained now ≡ ok lease
      → (later ≤ℤ nanos (expires_at +ℤ pos 298)) ⊎ (later ≤ℤ now)
      → expired e.chrono lease later ≡ false
  fresh_made clock name expires_at now later retained lease kept made early =
      elim (Bool-cases (expired e.chrono lease later)) [
        | inr fresh ↦ fresh
        | inl over ↦ absurd (
            too_early
              (expired-after_retention e.chrono expires_at name now later retained lease clock kept
                made over)
              early)
      ]
    where
      too_early :
          (nanos (expires_at +ℤ pos 298) <ℤ later) × (now <ℤ later)
          → (later ≤ℤ nanos (expires_at +ℤ pos 298)) ⊎ (later ≤ℤ now)
          → ⊥
      too_early (a, b) (inl c) = omega arith
      too_early (a, b) (inr c) = omega arith

  -- A record of the assertion stands, and is not taken for expired until 298 seconds after the
  -- assertion's expiry.
  abbrev pub Spent : Text → ℤ → Ledger S → Type 0
  Spent jti expires_at ledger =
      (stored : Lease) × (view ledger.api (lease_name e.sha256 jti) ≡ some stored)
      × ((later : DateTime)
          → later ≤ℤ nanos (expires_at +ℤ pos 298)
          → expired e.chrono stored later ≡ false)

  -- Where `use_once` succeeds, a record of the assertion stands afterwards, which is not taken for
  -- expired until 298 seconds after the assertion's expiry.
  pub use_once-Spent :
      ChronoLaws e.chrono
      → (now : DateTime) (jti : Text) (expires_at : ℤ) (ledger : Ledger S)
      → (use_once e now jti expires_at ledger).0 ≡ ok tt
      → Spent jti expires_at (use_once e now jti expires_at ledger).1
  unfolding use_once
  use_once-Spent clock now jti expires_at ledger =
      elim (Result-cases (retained_until e.chrono expires_at (e.chrono.timestamp now))) [
        | inr (x, refused) ↦ rw refused (λ p. cc)
        | inl (retained, kept) ↦
            elim (Result-cases (new_lease e.chrono (lease_name e.sha256 jti) retained now)) [
              | inr (x, refused) ↦ rw (kept, refused) (λ p. cc)
              | inl (lease, made) ↦
                  rw (kept, made)
                    (λ p.
                      spent retained lease kept made
                        ((create e lease >>= recorded e lease.metadata.name lease now) ledger).1
                        (bind (Anything e view laws) (Created e view laws lease) (Done lease)
                          (create e lease) (recorded e lease.metadata.name lease now)
                          (create-Created e view laws lease)
                          (λ result. recorded-Done lease now result (
                            fresh_made clock (lease_name e.sha256 jti) expires_at now now retained
                              lease kept made (inr (≤ℤ-self now))))
                          (λ x s _. failed lease x s) ledger tt p))
            ]
      ]
    where
      spent :
          (retained : DateTime) (lease : Lease)
          → retained_until e.chrono expires_at (e.chrono.timestamp now) ≡ ok retained
          → new_lease e.chrono (lease_name e.sha256 jti) retained now ≡ ok lease
          → (after : Ledger S) → Stores e view laws lease.metadata.name lease after
          → Spent jti expires_at after
      spent retained lease kept made after (stored, held, spec, labels) = (
        stored,
        subst (λ n. view after.api n ≡ some stored)
            (new_lease-name e view laws (lease_name e.sha256 jti) retained now made) held,
        λ later early.
            expired-same e.chrono stored lease later spec labels
            ∙ fresh_made clock (lease_name e.sha256 jti) expires_at now later retained lease kept
                made (inl early),
      )

  -- Once a `use_once` has succeeded, a later one of the same assertion, by any replica that finds
  -- the same record, does not succeed before 298 seconds after the assertion's expiry, whatever
  -- expiry it is given.
  pub use_once-once :
      ChronoLaws e.chrono
      → (now later : DateTime) (jti : Text) (expires_at again : ℤ) (ledger other : Ledger S)
      → (use_once e now jti expires_at ledger).0 ≡ ok tt
      → view other.api (lease_name e.sha256 jti)
        ≡ view (use_once e now jti expires_at ledger).1.api (lease_name e.sha256 jti)
      → later ≤ℤ nanos (expires_at +ℤ pos 298)
      → (use_once e later jti again other).0 ≢ ok tt
  use_once-once clock now later jti expires_at again ledger other used same early =
      let (stored, held, fresh) = use_once-Spent clock now jti expires_at ledger used in
      use_once-Fails e view laws later jti again stored (fresh later early) other (same ∙ held) tt
