-- ===== src/Replay/Sweeps.antt =====
-- src/replay.rs: in the model `cleanup_one` has a result, which is never an error.
use github_oidc_exchange.Prelude.{
  ℕ, zero, suc, ◌≡◌, refl, Bool, true, false, not, ◌||◌, List, [], ◌∷◌, Option, none, some, Result,
  ok, err,
}
use github_oidc_exchange.Text.{Text}
use github_oidc_exchange.Effects.{◌>>◌, return, catch}
use github_oidc_exchange.Effects.Triple.{Triple, bind, caught, branch}
use github_oidc_exchange.Replay.{ReplayError, DateTime, Lease, LeaseList}
use github_oidc_exchange.Replay.Record.{expired, owned_ledger_lease}
use github_oidc_exchange.Replay.Ledger.{
  Environment, Ledger, get_lease, delete, list_leases, delete_found, delete_one, next_page,
  next_token, sweep_page, sweep_or_reset, cleanup_pages, cleanup_one,
}

module _ {S : Type 0} (e : Environment S) (now : DateTime) where
  abbrev Any : Ledger S → Type 0
  Any s = Unit

  abbrev Succeeds : {A : Type 0} → Result A ReplayError → Ledger S → Type 0
  Succeeds (ok a) s = Unit
  Succeeds (err x) s = ⊥

  caught-Succeeds :
      {A : Type 0} (m : Ledger S → Result A ReplayError × Ledger S) (a : A)
      → Triple Any (catch m (λ (_ : ReplayError). return a)) Succeeds
  caught-Succeeds m a =
      caught Any (λ r. Any) Succeeds m (λ _. return a) (λ s _. tt) (λ x s _. tt) (λ b s _. tt)

  delete_found-Succeeds :
      (skip : Ledger S → Result Bool ReplayError × Ledger S) (lease : Lease) (read : Option Lease)
      → Triple Any skip Succeeds
      → Triple Any (delete_found e skip lease now read) Succeeds
  unfolding delete_found
  delete_found-Succeeds skip lease none h = h
  delete_found-Succeeds skip lease (some current) h =
      branch Any Succeeds (not (owned_ledger_lease current) || not (expired e.chrono current now))
        skip _ (λ _. h) (λ _. versioned current.metadata.resource_version)
    where
      versioned :
          (version : Option Text)
          → Triple Any
              (elim version [
                | none ↦ skip
                | some version ↦
                    catch (delete e lease.metadata.name version) (λ (_ : ReplayError). return tt)
                    >> return true
              ])
              Succeeds
      versioned none = h
      versioned (some version) =
          bind Any Succeeds Succeeds
            (catch (delete e lease.metadata.name version) (λ (_ : ReplayError). return tt))
            (λ _. return true) (caught-Succeeds (delete e lease.metadata.name version) tt)
            (λ _ s _. tt) (λ x s never. never)

  delete_one-Succeeds : (leases : List Lease) → Triple Any (delete_one e leases now) Succeeds
  unfolding delete_one
  delete_one-Succeeds [] = λ s _. tt
  delete_one-Succeeds (lease ∷ leases) =
      bind Any Succeeds Succeeds
        (catch (get_lease e lease.metadata.name) (λ (_ : ReplayError). return none))
        (delete_found e (delete_one e leases now) lease now)
        (caught-Succeeds (get_lease e lease.metadata.name) none)
        (λ read s _.
          delete_found-Succeeds (delete_one e leases now) lease read (delete_one-Succeeds leases) s
            tt)
        (λ x s never. never)

  next_page-Succeeds :
      (again : Text → Ledger S → Result (Unit {0}) ReplayError × Ledger S) (next : Option Text)
      (returned : Bool)
      → ((token : Text) → Triple Any (again token) Succeeds)
      → Triple Any (next_page e again next returned) Succeeds
  next_page-Succeeds again next true h = λ s _. tt
  next_page-Succeeds again none false h = λ s _. tt
  next_page-Succeeds again (some token) false h = h token

  sweep_page-Succeeds :
      (again : Text → Ledger S → Result (Unit {0}) ReplayError × Ledger S) (leases : LeaseList)
      → ((token : Text) → Triple Any (again token) Succeeds)
      → Triple Any (sweep_page e again now leases) Succeeds
  unfolding sweep_page
  sweep_page-Succeeds again leases h s _ =
      bind Any Succeeds Succeeds (delete_one e _ now) (next_page e again (next_token e leases))
        (delete_one-Succeeds _)
        (λ returned s _. next_page-Succeeds again (next_token e leases) returned h s tt)
        (λ x s never. never) (record s { cleanup_continue = next_token e leases }) tt

  cleanup_pages-Succeeds :
      (left : ℕ) (continue_token : Option Text)
      → Triple Any (cleanup_pages e left continue_token now) Succeeds
  unfolding cleanup_pages
  cleanup_pages-Succeeds zero continue_token = λ s _. tt
  cleanup_pages-Succeeds (suc left) continue_token = λ s _.
      swept (λ token. cleanup_pages-Succeeds left (some token)) (list_leases e continue_token s)
    where
      swept :
          ((token : Text) → Triple Any (cleanup_pages e left (some token) now) Succeeds)
          → (r : Result LeaseList ReplayError × Ledger S)
          → Succeeds
              (sweep_or_reset e
                (sweep_page e (λ token. cleanup_pages e left (some token) now) now)
                r).0
              (sweep_or_reset e
                (sweep_page e (λ token. cleanup_pages e left (some token) now) now)
                r).1
      swept again (ok leases, t) =
          sweep_page-Succeeds (λ token. cleanup_pages e left (some token) now) leases again t tt
      swept again (err x, t) = tt

  ok_of_Succeeds : (r : Result (Unit {0}) ReplayError) (s : Ledger S) → Succeeds r s → r ≡ ok tt
  ok_of_Succeeds (ok _) s h = refl
  ok_of_Succeeds (err x) s h = absurd h

  pub cleanup_one-ok : (s : Ledger S) → (cleanup_one e now s).0 ≡ ok tt
  unfolding cleanup_one
  cleanup_one-ok s = ok_of_Succeeds _ _ (cleanup_pages-Succeeds 2 s.cleanup_continue s tt)
