-- ===== src/Github/Cache.antt =====
-- src/github.rs: GitHub's keys: the cache, its two rate-limited refreshes and the count of failures.
-- The clock, the fetch of the document and the decoding of a key are parameters over the world.
use github_oidc_exchange.Prelude.{
  ℕ, ◌-◌, ◌^◌, List, [], ◌∷◌, Bool, true, false, not, ◌&&◌, ◌||◌, Option, none, some, String,
  Result, ok, err, leb, ltb, nat_eq, list_eq, if◌then◌else◌, get, put, is_empty,
}
use github_oidc_exchange.Prelude.Int.{ℤ, pos, negsuc, saturating_sub, leb_ℤ, ltb_ℤ}
use github_oidc_exchange.Text.{Text}
use github_oidc_exchange.Effects.{M, ◌>>=◌, ◌>>◌, return, fail, modify, bump}
use github_oidc_exchange.Oidc.Cache.{Jwk}
use github_oidc_exchange.Github.{VerifyError, keys_unavailable}

pub record KeyCache (K : Type 0) : Type 0 where
  pub keys : List (Text × K)
  pub fetched_at : ℤ

pub record RefreshState : Type 0 where
  pub last_soft_attempt : ℤ
  pub last_forced_attempt : ℤ
  pub last_forced_failed : Bool

pub data RefreshAttempt : Type 0 where
  refreshed skipped : RefreshAttempt

-- How a fetch of the document fails: in being sent, by its status, or in being decoded.
pub data FetchError : Type 0 where
  sending status decoding : String → FetchError

pub record Outside (W K J : Type 0) : Type 0 where
  pub clock : W → ℤ × W
  pub fetch_jwks : Text → W → Result (List (Jwk J)) FetchError × W
  pub from_jwk : J → Option K

-- The fixed part of a verifier; the key source is the remote one.
pub record GitHubVerifier : Type 0 where
  pub audience : Text
  pub jwks_url : Text
  pub max_staleness : ℕ

-- The mutable part of a verifier, beside the world.
pub record Keys (W K : Type 0) : Type 0 where
  pub cache : KeyCache K
  pub refresh : RefreshState
  pub refresh_failures : ℕ
  pub world : W

unfoldable pub attempted_recently : ℤ → ℤ → Bool
attempted_recently last_attempt now =
    ltb_ℤ (pos 0) last_attempt && ltb_ℤ (saturating_sub now last_attempt) (pos 30)

abbrev non_negative : ℤ → ℕ
non_negative (pos n) = n
non_negative (negsuc n) = 0

unfoldable pub cache_age_seconds : ℤ → ℤ → ℕ
cache_age_seconds fetched_at now =
    if leb_ℤ fetched_at (pos 0) then 2 ^ 64 - 1 else non_negative (saturating_sub now fetched_at)

unfoldable pub cache_is_usable : {K : Type 0} → KeyCache K → ℤ → ℕ → Bool
unfolding cache_age_seconds
cache_is_usable cache now max_staleness =
    not (is_empty cache.keys) && leb (cache_age_seconds cache.fetched_at now) max_staleness

-- The stage that the error names.
abbrev pub fetch_failed : FetchError → VerifyError
fetch_failed (FetchError.sending detail) = keys_unavailable "fetching the GitHub JWKS" detail
fetch_failed (FetchError.status detail) =
    keys_unavailable "checking the GitHub JWKS HTTP status" detail
fetch_failed (FetchError.decoding detail) = keys_unavailable "decoding the GitHub JWKS" detail

abbrev pub no_usable_keys : VerifyError
no_usable_keys =
    keys_unavailable "validating the GitHub JWKS"
      "the document contains no usable RS256 signing keys"

abbrev pub rate_limited : VerifyError
rate_limited =
    keys_unavailable "refreshing the GitHub JWKS for an unknown key ID"
      "a recent forced refresh failed and retry is rate-limited"

abbrev pub past_hard_staleness : VerifyError
past_hard_staleness =
    keys_unavailable "using the cached GitHub JWKS"
      "the cache is past the configured hard-staleness bound"

abbrev pub empty_or_past : VerifyError
empty_or_past =
    keys_unavailable "using the cached GitHub JWKS"
      "the cache is empty or past the configured hard-staleness bound"

abbrev pub has_key {ℓ} : {A : Type ℓ} → Option A → Bool
has_key none = false
has_key (some key) = true

module _ {W K J : Type 0} (o : Outside W K J) (p : GitHubVerifier) where
  -- The loop over the document's keys: later entries replace earlier ones of the same `kid`.
  abbrev insert_key : List (Text × K) → Text → Option K → List (Text × K)
  insert_key keys kid none = keys
  insert_key keys kid (some key) = put kid key keys

  abbrev pub accept_jwk : List (Text × K) → Jwk J → List (Text × K)
  accept_jwk keys jwk = elim jwk.key_id [
    | none ↦ keys
    | some kid ↦
        if jwk.is_rs256 && jwk.is_signature
        then insert_key keys kid (o.from_jwk jwk.parameters)
        else keys
  ]

  unfoldable pub usable_keys : List (Text × K) → List (Jwk J) → List (Text × K)
  usable_keys keys [] = keys
  usable_keys keys (jwk ∷ rest) = usable_keys (accept_jwk keys jwk) rest

  abbrev pub V : Type 0 → Type 0
  V A = M (Keys W K) VerifyError A

  abbrev pub read_clock : V ℤ
  read_clock s = (ok (o.clock s.world).0, record s { world = (o.clock s.world).1 })

  abbrev pub fetched :
      Result (List (Jwk J)) FetchError × W → Keys W K → Result (List (Jwk J)) VerifyError × Keys W K
  fetched (ok document, w) s = (ok document, record s { world = w })
  fetched (err failure, w) s = (err (fetch_failed failure), record s { world = w })

  abbrev pub fetch : V (List (Jwk J))
  fetch s = fetched (o.fetch_jwks p.jwks_url s.world) s

  abbrev pub read_cache : V (KeyCache K)
  read_cache s = (ok s.cache, s)

  abbrev pub read_refresh : V RefreshState
  read_refresh s = (ok s.refresh, s)

  abbrev pub set_cache : List (Text × K) → ℤ → V (Unit {0})
  set_cache keys now = modify (λ s. record s { cache = record { keys = keys; fetched_at = now } })

  unfoldable pub refresh_now : V (Unit {0})
  unfolding usable_keys
  refresh_now = do
    document ← fetch
    let keys = usable_keys [] document
    if is_empty keys then fail no_usable_keys else return tt
    now ← read_clock
    set_cache keys now

  -- The reading of the clock is the log event's.
  unfoldable pub record_refresh_failure : V (Unit {0})
  record_refresh_failure = do
    modify (λ s. record s { refresh_failures = bump s.refresh_failures })
    _ ← read_clock
    return tt

  -- A result, and what is done where it is an error, which stays the result.
  abbrev pub after_failure :
      {A : Type 0}
      → V (Unit {0})
      → Result A VerifyError × Keys W K
      → Result A VerifyError × Keys W K
  after_failure h (ok a, s) = (ok a, s)
  after_failure h (err e, s) = (err e, (h s).1)

  unfoldable pub warm_up : V (Unit {0})
  unfolding refresh_now record_refresh_failure
  warm_up s = after_failure record_refresh_failure (refresh_now s)

  unfoldable pub run_refresh : V RefreshAttempt
  run_refresh =
      (λ s. after_failure record_refresh_failure (refresh_now s)) >> return RefreshAttempt.refreshed

  unfoldable pub check_ready : V (Unit {0})
  check_ready = do
    now ← read_clock
    cache ← read_cache
    if cache_is_usable cache now p.max_staleness
        then return tt
        else fail (
            keys_unavailable "checking the cached GitHub JWKS"
              "the last successful refresh is past the configured hard-staleness bound")

  unfoldable pub refresh_soft_if_due : V RefreshAttempt
  refresh_soft_if_due = do
    now ← read_clock
    cache ← read_cache
    again ← read_clock
    refresh ← read_refresh
    if ltb (cache_age_seconds cache.fetched_at again) 300
          || attempted_recently refresh.last_soft_attempt now
        then return RefreshAttempt.skipped
        else modify (λ s. record s { refresh = record (s.refresh) { last_soft_attempt = now } })
          >> run_refresh

  abbrev pub note_forced :
      {A : Type 0} → Result A VerifyError × Keys W K → Result A VerifyError × Keys W K
  note_forced (ok a, s) =
      (ok a, record s { refresh = record (s.refresh) { last_forced_failed = false } })
  note_forced (err e, s) =
      (err e, record s { refresh = record (s.refresh) { last_forced_failed = true } })

  abbrev pub limited : Bool → V RefreshAttempt
  limited true = fail rate_limited
  limited false = return RefreshAttempt.skipped

  unfoldable pub forced_refresh : ℤ → V RefreshAttempt
  forced_refresh now s =
      note_forced
        (run_refresh (record s { refresh = record (s.refresh) { last_forced_attempt = now } }))

  unfoldable pub refresh_for_unknown_kid_if_due : Text → V RefreshAttempt
  refresh_for_unknown_kid_if_due kid = do
    now ← read_clock
    cache ← read_cache
    refresh ← read_refresh
    if has_key (get cache.keys kid)
        then return RefreshAttempt.skipped
        else if attempted_recently refresh.last_forced_attempt now
        then limited refresh.last_forced_failed
        else forced_refresh now
