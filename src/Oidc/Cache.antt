-- ===== src/Oidc/Cache.antt =====
-- src/oidc.rs: `ProviderVerifier`, its key cache and its two rate-limited refreshes. The clock, the
-- fetch of a document and the decoding of a key are parameters over the world.
use github_oidc_exchange.Prelude.{
  ℕ, ◌-◌, ◌^◌, List, [], ◌∷◌, ◌++◌, Bool, true, false, not, ◌&&◌, ◌||◌, Option, none, some, Result,
  ok, leb, ltb, ◌==◌, nat_eq, list_eq, option_eq, if◌then◌else◌, get, put, is_empty,
}
use github_oidc_exchange.Prelude.Int.{ℤ, pos, negsuc, saturating_sub, leb_ℤ, ltb_ℤ}
use github_oidc_exchange.Text.{Text, text, len}
use github_oidc_exchange.Effects.{M, ◌>>=◌, ◌>>◌, return, fail, modify}
use github_oidc_exchange.Oidc.{OidcVerifyError, Url}

-- One entry of a JWKS, as far as the code asks.
pub record Jwk (J : Type 0) : Type 0 where
  pub key_id : Option Text
  pub is_rs256 : Bool
  pub is_signature : Bool
  pub parameters : J

pub record DiscoveryDocument : Type 0 where
  pub issuer : Text
  pub jwks_uri : Text

pub record KeyCache (K : Type 0) : Type 0 where
  pub keys : List (Text × K)
  pub fetched_at : ℤ

pub record RefreshState : Type 0 where
  pub last_soft_attempt : ℤ
  pub last_forced_attempt : ℤ

pub record Outside (W K J : Type 0) : Type 0 where
  pub parse : Text → Option Url
  pub clock : W → ℤ × W
  pub fetch_discovery : Text → W → Result DiscoveryDocument OidcVerifyError × W
  pub fetch_jwks : Text → W → Result (List (Jwk J)) OidcVerifyError × W
  pub from_jwk : J → Option K

pub record ProviderVerifier : Type 0 where
  pub issuer : Text
  pub audience : Text
  pub max_staleness : ℕ

-- The mutable part of a verifier, beside the world.
pub record Provider (W K : Type 0) : Type 0 where
  pub cache : KeyCache K
  pub refresh : RefreshState
  pub world : W

unfoldable pub attempted_recently : ℤ → ℤ → Bool
attempted_recently last_attempt now =
    ltb_ℤ (pos 0) last_attempt && ltb_ℤ (saturating_sub now last_attempt) (pos 30)

abbrev non_negative : ℤ → ℕ
non_negative (pos n) = n
non_negative (negsuc n) = 0

unfoldable pub cache_age_seconds : ℤ → ℤ → ℕ
cache_age_seconds fetched_at now =
    if leb_ℤ fetched_at (pos 0) then 2 ^ 64 - 1 else non_negative (saturating_sub now fetched_at)

unfoldable pub cache_is_usable : {K : Type 0} → KeyCache K → ℤ → ℕ → Bool
unfolding cache_age_seconds
cache_is_usable cache now max_staleness =
    not (is_empty cache.keys) && leb (cache_age_seconds cache.fetched_at now) max_staleness

abbrev is_some : {A : Type 0} → Option A → Bool
is_some none = false
is_some (some a) = true

abbrev is_none : {A : Type 0} → Option A → Bool
is_none none = true
is_none (some a) = false

abbrev https_endpoint : Option Url → Bool
https_endpoint none = false
https_endpoint (some url) =
    url.scheme == text "https"
    && is_some url.host_str
    && is_empty url.username
    && is_none url.password
    && is_none url.query
    && is_none url.fragment

abbrev one_origin : Option Url → Option Url → Bool
one_origin (some left) (some right) =
    left.scheme == right.scheme
    && left.host_str == right.host_str
    && left.port_or_known_default == right.port_or_known_default
one_origin _ _ = false

module _ {W K J : Type 0} (o : Outside W K J) (p : ProviderVerifier) where
  unfoldable pub valid_issuer_endpoint : Text → Bool
  valid_issuer_endpoint value = leb (len value) 2048 && https_endpoint (o.parse value)

  unfoldable pub same_origin : Text → Text → Bool
  same_origin left right = one_origin (o.parse left) (o.parse right)

  unfoldable pub valid_discovery : Text → DiscoveryDocument → Bool
  unfolding valid_issuer_endpoint same_origin
  valid_discovery configured_issuer discovery =
      discovery.issuer == configured_issuer
      && valid_issuer_endpoint discovery.jwks_uri
      && same_origin configured_issuer discovery.jwks_uri

  -- The loop over the document's keys: later entries replace earlier ones of the same `kid`.
  abbrev insert_key : List (Text × K) → Text → Option K → List (Text × K)
  insert_key keys kid none = keys
  insert_key keys kid (some key) = put kid key keys

  abbrev accept_jwk : List (Text × K) → Jwk J → List (Text × K)
  accept_jwk keys jwk = elim jwk.key_id [
    | none ↦ keys
    | some kid ↦
        if jwk.is_rs256 && jwk.is_signature
        then insert_key keys kid (o.from_jwk jwk.parameters)
        else keys
  ]

  unfoldable pub usable_keys : List (Text × K) → List (Jwk J) → List (Text × K)
  usable_keys keys [] = keys
  usable_keys keys (jwk ∷ rest) = usable_keys (accept_jwk keys jwk) rest

  abbrev pub V : Type 0 → Type 0
  V A = M (Provider W K) OidcVerifyError A

  abbrev pub read_clock : V ℤ
  read_clock s = (ok (o.clock s.world).0, record s { world = (o.clock s.world).1 })

  abbrev fetch : {A : Type 0} → (W → Result A OidcVerifyError × W) → V A
  fetch call s = ((call s.world).0, record s { world = (call s.world).1 })

  abbrev read_cache : V (KeyCache K)
  read_cache s = (ok s.cache, s)

  abbrev read_refresh : V RefreshState
  read_refresh s = (ok s.refresh, s)

  abbrev set_cache : List (Text × K) → ℤ → V (Unit {0})
  set_cache keys now = modify (λ s. record s { cache = record { keys = keys; fetched_at = now } })

  unfoldable pub refresh_now : V (Unit {0})
  unfolding usable_keys valid_discovery
  refresh_now = do
    discovery ← fetch (o.fetch_discovery (p.issuer ++ text "/.well-known/openid-configuration"))
    if valid_discovery p.issuer discovery then return tt else fail OidcVerifyError.invalid
    document ← fetch (o.fetch_jwks discovery.jwks_uri)
    let keys = usable_keys [] document
    if is_empty keys then fail OidcVerifyError.unavailable else return tt
    now ← read_clock
    set_cache keys now

  unfoldable pub refresh_for_unknown_kid_if_due : V (Unit {0})
  unfolding refresh_now
  refresh_for_unknown_kid_if_due = do
    refresh ← read_refresh
    now ← read_clock
    if attempted_recently refresh.last_forced_attempt now
        then fail OidcVerifyError.unavailable
        else modify (λ s. record s { refresh = record (s.refresh) { last_forced_attempt = now } })
          >> refresh_now

  unfoldable pub refresh_soft_if_due : V (Unit {0})
  unfolding refresh_now
  refresh_soft_if_due = do
    refresh ← read_refresh
    now ← read_clock
    cache ← read_cache
    if ltb (cache_age_seconds cache.fetched_at now) 300
          || attempted_recently refresh.last_soft_attempt now
        then return tt
        else modify (λ s. record s { refresh = record (s.refresh) { last_soft_attempt = now } })
          >> refresh_now

  abbrev pub found_or : Option K → V K → V K
  found_or (some key) otherwise = return key
  found_or none otherwise = otherwise

  -- The second look at the cache, after the refresh.
  unfoldable pub key_after_refresh : Text → V K
  key_after_refresh kid = do
    cache ← read_cache
    now ← read_clock
    if cache_is_usable cache now p.max_staleness
        then found_or (get cache.keys kid) (fail OidcVerifyError.invalid)
        else fail OidcVerifyError.unavailable

  unfoldable pub key : Text → V K
  unfolding refresh_for_unknown_kid_if_due key_after_refresh
  key kid = do
    now ← read_clock
    cache ← read_cache
    let refreshed : V K = refresh_for_unknown_kid_if_due >> key_after_refresh kid
    if cache_is_usable cache now p.max_staleness
        then found_or (get cache.keys kid) refreshed
        else if not (is_empty cache.keys)
        then fail OidcVerifyError.unavailable
        else refreshed
