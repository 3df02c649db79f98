-- ===== src/Replay/Ledger.antt =====
-- src/replay.rs: `KubernetesLeaseReplayLedger`, its requests and `use_once`, `cleanup_one` and
-- `check_ready`. One call runs from its start to its end; what other replicas do meanwhile is part
-- of the API's state and answers. The two mutexes are never poisoned.
use github_oidc_exchange.Prelude.{
  ℕ, zero, suc, ◌-◌, Bool, true, false, not, ◌||◌, List, [], ◌∷◌, ◌++◌, Option, none, some, Result,
  ok, err, is_empty, ltb, if◌then◌else◌, ◌==◌, nat_eq,
}
use github_oidc_exchange.Prelude.Int.{ℤ}
use github_oidc_exchange.Text.{Text, text, trim}
use github_oidc_exchange.Digest.{take}
use github_oidc_exchange.Effects.{M, ◌>>=◌, ◌>>◌, return, fail, modify, from_result, catch}
use github_oidc_exchange.Replay.{
  ReplayError, replayed, unavailable, DateTime, Chrono, Lease, LeaseList, LeaseApi,
}
use github_oidc_exchange.Replay.Record.{
  lease_name, retained_until, new_lease, expired, owned_ledger_lease, expired_owned_leases,
}

pub record ReadinessCache : Type 0 where
  pub checked_at : Option ℕ
  pub ready : Bool

pub record Ledger (S : Type 0) : Type 0 where
  pub api : S
  pub cleanup_continue : Option Text
  pub readiness : ReadinessCache

pub data CreateResult : Type 0 where
  created conflict : CreateResult

pub data UpdateResult : Type 0 where
  updated conflict : UpdateResult

pub record Environment (S : Type 0) : Type 0 where
  pub api : LeaseApi S
  pub chrono : Chrono
  pub sha256 : List ℕ → List ℕ
  pub collection_url : Text

abbrev pub readiness_lease_name : Text
readiness_lease_name = text "github-oidc-exchange-readiness"

module _ {S : Type 0} (e : Environment S) where
  abbrev pub L : Type 0 → Type 0
  L A = M (Ledger S) ReplayError A

  -- A request to the API.
  abbrev pub request : {A : Type 0} → (S → A × S) → L A
  request call ledger = (ok (call ledger.api).0, record ledger { api = (call ledger.api).1 })

  abbrev pub or_unavailable : {A : Type 0} → Option A → L A
  or_unavailable none = fail unavailable
  or_unavailable (some a) = return a

  unfoldable pub credential : L Text
  credential = do
    text_read ← request e.api.credential
    contents ← or_unavailable text_read
    let value = trim contents
    if is_empty value then fail unavailable else return value

  abbrev pub create_result : ℕ → L CreateResult
  create_result status =
      if status == 201
      then return CreateResult.created
      else if status == 409
      then return CreateResult.conflict
      else fail unavailable

  unfoldable pub post : Lease → Text → L CreateResult
  post lease token = do
    answer ← request (e.api.post token lease)
    status ← or_unavailable answer
    create_result status

  unfoldable pub create : Lease → L CreateResult
  create lease = credential >>= post lease

  abbrev pub item_url : Text → L Text
  item_url name = or_unavailable (e.api.item_url (e.collection_url ++ (b'/' ∷ name)))

  abbrev pub get_result : ℕ → Option Lease → L (Option Lease)
  get_result status none =
      if status == 200
      then fail unavailable
      else if status == 404
      then return none
      else fail unavailable
  get_result status (some lease) =
      if status == 200
      then return (some lease)
      else if status == 404
      then return none
      else fail unavailable

  unfoldable pub fetch : Text → Text → L (Option Lease)
  fetch name token = do
    url ← item_url name
    answer ← request (e.api.get token url)
    response ← or_unavailable answer
    get_result response.0 response.1

  unfoldable pub get_lease : Text → L (Option Lease)
  get_lease name = credential >>= fetch name

  abbrev pub update_result : ℕ → L UpdateResult
  update_result status =
      if status == 200
      then return UpdateResult.updated
      else if status == 409
      then return UpdateResult.conflict
      else fail unavailable

  unfoldable pub put : Text → Lease → Text → L UpdateResult
  put name lease token = do
    url ← item_url name
    answer ← request (e.api.put token url lease)
    status ← or_unavailable answer
    update_result status

  unfoldable pub update : Text → Lease → L UpdateResult
  update name lease = credential >>= put name lease

  unfoldable pub list_page : Option Text → Text → L LeaseList
  list_page continue_token token = do
    answer ← request (e.api.list token continue_token)
    response ← or_unavailable answer
    if response.0 == 200 then or_unavailable response.1 else fail unavailable

  unfoldable pub list_leases : Option Text → L LeaseList
  list_leases continue_token = credential >>= list_page continue_token

  unfoldable pub remove : Text → Text → Text → L (Unit {0})
  remove name resource_version token = do
    url ← item_url name
    answer ← request (e.api.delete token url resource_version)
    status ← or_unavailable answer
    if status == 200 || status == 202 || status == 404 || status == 409
        then return tt
        else fail unavailable

  unfoldable pub delete : Text → Text → L (Unit {0})
  delete name resource_version = credential >>= remove name resource_version

  -- `.filter(|value| !value.is_empty())`.
  abbrev pub non_empty : Option Text → Option Text
  non_empty none = none
  non_empty (some value) = if is_empty value then none else some value

  abbrev pub with_version : Lease → Text → Lease
  with_version lease version = record lease {
    metadata = record (lease.metadata) { resource_version = some version };
  }

  abbrev pub absent : CreateResult → L (Unit {0})
  absent CreateResult.created = return tt
  absent CreateResult.conflict = fail unavailable

  -- After the PUT of a round: a conflict leads to another round if this was the first, of two.
  abbrev pub after_update : L (Unit {0}) → ℕ → UpdateResult → L (Unit {0})
  after_update again left UpdateResult.updated = return tt
  after_update again left UpdateResult.conflict = if left == 1 then again else fail unavailable

  -- The rest of a round, after the GET; `again` is the next round, of `left`.
  unfoldable pub reclaim_found :
      L (Unit {0}) → ℕ → Text → Lease → DateTime → Option Lease → L (Unit {0})
  reclaim_found again left name replacement now none = create replacement >>= absent
  reclaim_found again left name replacement now (some existing) =
      if not (expired e.chrono existing now)
      then fail replayed
      else or_unavailable (non_empty existing.metadata.resource_version) >>= λ version.
          update name (with_version replacement version) >>= after_update again left

  -- The rounds `attempt in 0..=1`, by the number of rounds left.
  unfoldable pub reclaim_rounds : ℕ → Text → Lease → DateTime → L (Unit {0})
  reclaim_rounds zero name replacement now = fail unavailable
  reclaim_rounds (suc left) name replacement now =
      get_lease name
      >>= reclaim_found (reclaim_rounds left name replacement now) left name replacement now

  unfoldable pub reclaim_expired : Text → Lease → DateTime → L (Unit {0})
  reclaim_expired name replacement now = reclaim_rounds 2 name replacement now

  -- After the GET of a candidate for deletion; `skip` goes on to the next.
  unfoldable pub delete_found : L Bool → Lease → DateTime → Option Lease → L Bool
  delete_found skip lease now none = skip
  delete_found skip lease now (some current) =
      if not (owned_ledger_lease current) || not (expired e.chrono current now)
      then skip
      else elim current.metadata.resource_version [
        | none ↦ skip
        | some version ↦
            catch (delete lease.metadata.name version) (λ (_ : ReplayError). return tt)
            >> return true
      ]

  -- The inner loop of `cleanup_one`; the result is whether it has returned from `cleanup_one`.
  unfoldable pub delete_one : List Lease → DateTime → L Bool
  delete_one [] now = return false
  delete_one (lease ∷ leases) now =
      catch (get_lease lease.metadata.name) (λ (_ : ReplayError). return none)
      >>= delete_found (delete_one leases now) lease now

  abbrev pub set_cleanup_continue : Option Text → L (Unit {0})
  set_cleanup_continue token = modify (λ ledger. record ledger { cleanup_continue = token })

  abbrev pub next_page : (Text → L (Unit {0})) → Option Text → Bool → L (Unit {0})
  next_page again next true = return tt
  next_page again none false = return tt
  next_page again (some token) false = again token

  abbrev pub next_token : LeaseList → Option Text
  next_token leases = if is_empty leases.continue_token then none else some leases.continue_token

  -- What is done with one page; `again` goes on to the page of a token.
  unfoldable pub sweep_page : (Text → L (Unit {0})) → DateTime → LeaseList → L (Unit {0})
  sweep_page again now leases =
      set_cleanup_continue (next_token leases)
      >> delete_one (take 1 (expired_owned_leases e.chrono leases.items now)) now
      >>= next_page again (next_token leases)

  -- An error of `list` ends the sweep.
  abbrev pub sweep_or_reset :
      (LeaseList → L (Unit {0}))
      → Result LeaseList ReplayError × Ledger S
      → Result (Unit {0}) ReplayError × Ledger S
  sweep_or_reset sweep (ok leases, ledger) = sweep leases ledger
  sweep_or_reset sweep (err _, ledger) = set_cleanup_continue none ledger

  -- The rounds over the pages, by the number of rounds left.
  unfoldable pub cleanup_pages : ℕ → Option Text → DateTime → L (Unit {0})
  cleanup_pages zero continue_token now ledger = (ok tt, ledger)
  cleanup_pages (suc left) continue_token now ledger =
      sweep_or_reset (sweep_page (λ token. cleanup_pages left (some token) now) now)
        (list_leases continue_token ledger)

  unfoldable pub cleanup_one : DateTime → L (Unit {0})
  cleanup_one now ledger = cleanup_pages 2 ledger.cleanup_continue now ledger

  abbrev pub recorded : Text → Lease → DateTime → CreateResult → L (Unit {0})
  recorded name lease now CreateResult.created = cleanup_one now
  recorded name lease now CreateResult.conflict = reclaim_expired name lease now >> cleanup_one now

  unfoldable pub use_once : DateTime → Text → ℤ → L (Unit {0})
  use_once now jti expires_at = do
    retained ← from_result (retained_until e.chrono expires_at (e.chrono.timestamp now))
    lease ← from_result (new_lease e.chrono (lease_name e.sha256 jti) retained now)
    result ← create lease
    recorded lease.metadata.name lease now result

  -- `checked_at` and the clock are monotonic readings in milliseconds; `timed_out` says whether the
  -- second that a request has runs out first.
  abbrev cached : ℕ → ReadinessCache → Bool
  cached instant cache = elim cache.checked_at [
    | none ↦ false
    | some checked_at ↦ ltb (instant - checked_at) 30000
  ]

  abbrev from_ready : Bool → L (Unit {0})
  from_ready true = return tt
  from_ready false = fail unavailable

  abbrev set_readiness : ℕ → Bool → L (Unit {0})
  set_readiness instant ready =
      modify (λ ledger. record ledger {
        readiness = record { checked_at = some instant; ready = ready };
      })

  abbrev within_timeout : Bool → L (Option Lease) → L (Option Lease)
  within_timeout timed_out request =
      if timed_out then request >>= (λ (_ : Option Lease). fail unavailable) else request

  unfoldable pub check_ready : (started finished : ℕ) → (timed_out : Bool) → L (Unit {0})
  check_ready started finished timed_out ledger =
      if cached started ledger.readiness
      then from_ready ledger.readiness.ready ledger
      else settle (within_timeout timed_out (get_lease readiness_lease_name) ledger)
    where
      settle :
          Result (Option Lease) ReplayError × Ledger S → Result (Unit {0}) ReplayError × Ledger S
      settle (ok lease, after) = (set_readiness finished true >> return tt) after
      settle (err error, after) = (set_readiness finished false >> fail error) after
