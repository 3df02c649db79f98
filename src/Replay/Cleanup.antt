-- ===== src/Replay/Cleanup.antt =====
-- src/replay.rs: cleanup never takes away a record that is not expired.
use github_oidc_exchange.Prelude.{
  ℕ, zero, suc, ◌≡◌, ◌≢◌, refl, ap, ◌∙◌, Bool, true, false, not, ◌||◌, List, [], ◌∷◌, Option, none,
  some, Result, ok, err, arith,
}
use github_oidc_exchange.Text.{Text}
use github_oidc_exchange.Effects.{◌>>◌, return, catch}
use github_oidc_exchange.Effects.Triple.{Triple, bind, caught, branch}
use github_oidc_exchange.Replay.{ReplayError, DateTime, Lease, LeaseList}
use github_oidc_exchange.Replay.Record.{expired, owned_ledger_lease}
use github_oidc_exchange.Replay.Ledger.{
  Environment, Ledger, get_lease, delete, list_leases, delete_found, delete_one, next_page,
  next_token, sweep_page, sweep_or_reset, cleanup_pages, cleanup_one,
}
use github_oidc_exchange.Replay.Store.{StoreLaws, Shows, Has, ReadBy, get_lease-ReadBy}
use github_oidc_exchange.Replay.Writes.{delete-Has, list_leases-Has}

module _ {S : Type 0} (e : Environment S) (view : S → Text → Option Lease) (laws : StoreLaws e view)
    (name : Text) (l : Lease) (now : DateTime) (fresh : expired e.chrono l now ≡ false) where
  abbrev pub Stands : Ledger S → Type 0
  Stands = Has e view laws name l

  abbrev pub Stays : {A : Type 0} → Result A ReplayError → Ledger S → Type 0
  Stays r = Stands

  -- The candidate read before a deletion, where the read succeeded.
  abbrev Seen : (Text → Option Lease) → Text → Result (Option Lease) ReplayError → Ledger S → Type 0
  Seen v other r ledger =
      ((current : Lease) → r ≡ ok (some current) → v other ≡ some current)
      × Shows e view laws v ledger

  read-Seen :
      (v : Text → Option Lease) (other : Text)
      → Triple
          (Shows e view laws v)
          (catch (get_lease e other) (λ (_ : ReplayError). return none))
          (Seen v other)
  read-Seen v other =
      caught (Shows e view laws v) (ReadBy e view laws v other) (Seen v other) (get_lease e other) _
        (get_lease-ReadBy e view laws v other) (λ x s h. (λ current p. cc, h.1))
        (λ read s h. (λ current p. h.0 ∙ same_read p, h.1))
    where
      same_read :
          {E : Type 0} {a b : Option Lease}
          → ◌≡◌ {A = Result (Option Lease) E} (ok a) (ok b)
          → a ≡ b
      same_read p = cc

  pub other_name :
      (v : Text → Option Lease) (other : Text) (current : Lease)
      → v name ≡ some l
      → v other ≡ some current
      → expired e.chrono current now ≡ true
      → name ≢ other
  other_name v other current held found over same = clash held (ap v same ∙ found)
    where
      clash : {o : Option Lease} → o ≡ some l → o ≡ some current → ⊥
      clash p q = ground arith

  delete_found-Stays :
      (skip : Ledger S → Result Bool ReplayError × Ledger S) (lease : Lease)
      (v : Text → Option Lease) (read : Option Lease)
      → v name ≡ some l
      → Triple Stands skip Stays
      → Triple (Seen v lease.metadata.name (ok read)) (delete_found e skip lease now read) Stays
  unfolding delete_found
  delete_found-Stays skip lease v none held h s (_, shown) = h s (ap (λ w. w name) shown ∙ held)
  delete_found-Stays skip lease v (some current) held h s (found, shown) =
      branch Stands Stays (not (owned_ledger_lease current) || not (expired e.chrono current now))
        skip _ (λ _. h) (λ f. versioned current.metadata.resource_version (due f)) s
        (ap (λ w. w name) shown ∙ held)
    where
      due :
          (not (owned_ledger_lease current) || not (expired e.chrono current now)) ≡ false
          → name ≢ lease.metadata.name
      due f = other_name v lease.metadata.name current held (found current refl) (ground arith)

      versioned :
          (version : Option Text)
          → name ≢ lease.metadata.name
          → Triple Stands
              (elim version [
                | none ↦ skip
                | some version ↦
                    catch (delete e lease.metadata.name version) (λ (_ : ReplayError). return tt)
                    >> return true
              ])
              Stays
      versioned none apart = h
      versioned (some version) apart =
          bind Stands Stays Stays _ _
            (caught Stands Stays Stays (delete e lease.metadata.name version) _
              (delete-Has e view laws name l lease.metadata.name version apart) (λ x s i. i)
              (λ a s i. i))
            (λ _ s i. i) (λ x s i. i)

  delete_one-Stays : (leases : List Lease) → Triple Stands (delete_one e leases now) Stays
  unfolding delete_one
  delete_one-Stays [] s h = h
  delete_one-Stays (lease ∷ leases) s h =
      bind (Shows e view laws (view s.api)) (Seen (view s.api) lease.metadata.name) Stays
        (catch (get_lease e lease.metadata.name) (λ (_ : ReplayError). return none))
        (delete_found e (delete_one e leases now) lease now)
        (read-Seen (view s.api) lease.metadata.name)
        (λ read.
          delete_found-Stays (delete_one e leases now) lease (view s.api) read h
            (delete_one-Stays leases))
        (λ x t i. ap (λ w. w name) i.1 ∙ h) s refl

  next_page-Stays :
      (again : Text → Ledger S → Result (Unit {0}) ReplayError × Ledger S) (next : Option Text)
      (returned : Bool)
      → ((token : Text) → Triple Stands (again token) Stays)
      → Triple Stands (next_page e again next returned) Stays
  next_page-Stays again next true h s i = i
  next_page-Stays again none false h s i = i
  next_page-Stays again (some token) false h s i = h token s i

  sweep_page-Stays :
      (again : Text → Ledger S → Result (Unit {0}) ReplayError × Ledger S) (leases : LeaseList)
      → ((token : Text) → Triple Stands (again token) Stays)
      → Triple Stands (sweep_page e again now leases) Stays
  unfolding sweep_page
  sweep_page-Stays again leases h s i =
      bind Stands Stays Stays (delete_one e _ now) (next_page e again (next_token e leases))
        (delete_one-Stays _) (λ returned. next_page-Stays again (next_token e leases) returned h)
        (λ x s j. j) (record s { cleanup_continue = next_token e leases }) i

  cleanup_pages-Stays :
      (left : ℕ) (continue_token : Option Text)
      → Triple Stands (cleanup_pages e left continue_token now) Stays
  unfolding cleanup_pages
  cleanup_pages-Stays zero continue_token s h = h
  cleanup_pages-Stays (suc left) continue_token s h =
      swept (λ token. cleanup_pages-Stays left (some token)) (list_leases e continue_token s)
        (list_leases-Has e view laws name l continue_token s h)
    where
      swept :
          ((token : Text) → Triple Stands (cleanup_pages e left (some token) now) Stays)
          → (r : Result LeaseList ReplayError × Ledger S) → Stands r.1
          → Stands
              (sweep_or_reset e
                (sweep_page e (λ token. cleanup_pages e left (some token) now) now)
                r).1
      swept again (ok leases, t) i =
          sweep_page-Stays (λ token. cleanup_pages e left (some token) now) leases again t i
      swept again (err x, t) i = i

  -- `cleanup_one` leaves every record that is not expired, whatever fails on the way.
  pub cleanup_one-Stays : Triple Stands (cleanup_one e now) Stays
  unfolding cleanup_one
  cleanup_one-Stays s h = cleanup_pages-Stays 2 s.cleanup_continue s h
