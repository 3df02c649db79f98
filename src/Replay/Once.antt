-- ===== src/Replay/Once.antt =====
-- src/replay.rs: an assertion is used once. `use_once` fails while a record of the assertion stands,
-- leaves such a record where it succeeds, and cleanup does not take it away.
use github_oidc_exchange.Prelude.{
  ℕ, zero, suc, ◌≡◌, ◌≢◌, refl, sym, subst, ◌∙◌, inl, inr, false, Option, none, some, Result, ok,
  arith, Result-cases, nat_eq,
}
use github_oidc_exchange.Prelude.Int.{ℤ}
use github_oidc_exchange.Text.{Text}
use github_oidc_exchange.Effects.Triple.{Triple, bind}
use github_oidc_exchange.Replay.{ReplayError, DateTime, Lease}
use github_oidc_exchange.Replay.Record.{lease_name, retained_until, new_lease, expired}
use github_oidc_exchange.Replay.Ledger.{
  Environment, Ledger, CreateResult, create, get_lease, reclaim_found, reclaim_rounds,
  reclaim_expired, cleanup_one, recorded, use_once,
}
use github_oidc_exchange.Replay.Store.{
  StoreLaws, Shows, Has, ReadBy, get_lease-ReadBy, Refuses, create-Refuses,
}

module _ {S : Type 0} (e : Environment S) (view : S → Text → Option Lease)
    (laws : StoreLaws e view) where
  abbrev Fails : {A : Type 0} → Result A ReplayError → Ledger S → Type 0
  Fails {A} r ledger = (a : A) → r ≢ ok a

  reclaim_found-Fails :
      (again : Ledger S → Result (Unit {0}) ReplayError × Ledger S) (left : ℕ) (name : Text)
      (replacement l : Lease) (now : DateTime) (v : Text → Option Lease) (read : Option Lease)
      → v name ≡ some l
      → expired e.chrono l now ≡ false
      → Triple
          (ReadBy e view laws v name (ok read))
          (reclaim_found e again left name replacement now read)
          Fails
  unfolding reclaim_found
  reclaim_found-Fails again left name replacement l now v none held fresh s (missing, _) = λ a p. cc
  reclaim_found-Fails again left name replacement l now v (some existing) held fresh s (found, _) =
      rw (not_over existing (sym found ∙ held)) (λ a p. cc)
    where
      not_over : (existing : Lease) → some existing ≡ some l → expired e.chrono existing now ≡ false
      not_over existing same = ground arith

  -- A record that is not expired is not reclaimed.
  reclaim_rounds-Fails :
      (rounds : ℕ) (name : Text) (replacement l : Lease) (now : DateTime)
      → expired e.chrono l now ≡ false
      → Triple (Has e view laws name l) (reclaim_rounds e rounds name replacement now) Fails
  unfolding reclaim_rounds
  reclaim_rounds-Fails zero name replacement l now fresh ledger h = λ a p. cc
  reclaim_rounds-Fails (suc left) name replacement l now fresh ledger h =
      bind (Shows e view laws (view ledger.api)) (ReadBy e view laws (view ledger.api) name) Fails
        (get_lease e name) _ (get_lease-ReadBy e view laws (view ledger.api) name)
        (λ read.
          reclaim_found-Fails (reclaim_rounds e left name replacement now) left name replacement l
            now (view ledger.api) read h fresh)
        (λ x s _ a p. cc) ledger refl

  -- While a record of the assertion stands, unexpired, `use_once` does not succeed.
  recorded-Fails :
      (name : Text) (lease l : Lease) (now : DateTime) (result : CreateResult)
      → expired e.chrono l now ≡ false
      → name ≡ lease.metadata.name
      → Triple
          (Refuses e view laws lease.metadata.name name l (ok result))
          (recorded e lease.metadata.name lease now result)
          Fails
  unfolding reclaim_expired
  recorded-Fails name lease l now CreateResult.created fresh same s (h, unmade) =
      absurd (unmade (sym same) refl)
  recorded-Fails name lease l now CreateResult.conflict fresh same s (h, unmade) =
      bind (Has e view laws lease.metadata.name l) Fails Fails
        (reclaim_expired e lease.metadata.name lease now) (λ _. cleanup_one e now)
        (reclaim_rounds-Fails 2 lease.metadata.name lease l now fresh)
        (λ a s never. absurd (never a refl)) (λ x s _ a p. cc) s
        (subst (λ n. Has e view laws n l s) same h)

  -- The name under which `use_once` looks for the record.
  pub new_lease-name :
      (name : Text) (retained now : DateTime) {lease : Lease}
      → new_lease e.chrono name retained now ≡ ok lease
      → lease.metadata.name ≡ name
  unfolding new_lease
  new_lease-name name retained now h = ground arith

  -- While an unexpired record of the assertion stands, `use_once` does not succeed.
  pub use_once-Fails :
      (now : DateTime) (jti : Text) (expires_at : ℤ) (l : Lease)
      → expired e.chrono l now ≡ false
      → Triple (Has e view laws (lease_name e.sha256 jti) l) (use_once e now jti expires_at) Fails
  unfolding use_once
  use_once-Fails now jti expires_at l fresh ledger h =
      elim (Result-cases (retained_until e.chrono expires_at (e.chrono.timestamp now))) [
        | inr (x, refused) ↦ rw refused (λ a p. cc)
        | inl (retained, kept) ↦
            elim (Result-cases (new_lease e.chrono (lease_name e.sha256 jti) retained now)) [
              | inr (x, refused) ↦ rw (kept, refused) (λ a p. cc)
              | inl (lease, made) ↦
                  rw (kept, made)
                    (let same = new_lease-name (lease_name e.sha256 jti) retained now made in
                      bind (Has e view laws (lease_name e.sha256 jti) l)
                        (Refuses e view laws lease.metadata.name (lease_name e.sha256 jti) l) Fails
                        (create e lease) (recorded e lease.metadata.name lease now)
                        (create-Refuses e view laws lease (lease_name e.sha256 jti) l)
                        (λ result.
                          recorded-Fails (lease_name e.sha256 jti) lease l now result fresh
                            (sym same))
                        (λ x s _ a p. cc) ledger h)
            ]
      ]
