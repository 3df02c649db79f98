-- ===== src/Oidc/Verify.antt =====
-- src/oidc.rs: `OidcVerifierSet`: its making and `verify`. The decoding of the token is the library's.
use github_oidc_exchange.Prelude.{
  ℕ, List, [], ◌∷◌, Bool, true, false, not, ◌||◌, Option, none, some, Result, ok, err, ltb, ◌==◌,
  nat_eq, list_eq, option_eq, is_empty, get, put, if◌then◌else◌,
}
use github_oidc_exchange.Prelude.Int.{ℤ}
use github_oidc_exchange.Text.{Text, text, len}
use github_oidc_exchange.Effects.{M, ◌>>=◌, ◌>>◌, return, fail, from_result}
use github_oidc_exchange.Oidc.{
  OidcClaims, OidcVerifyError, OidcPolicy, OidcProviderPolicy, Value, Url,
}
use github_oidc_exchange.Oidc.Policy.{validate}
use github_oidc_exchange.Oidc.Claims.{validated_claims}
use github_oidc_exchange.Oidc.Cache.{
  Outside, ProviderVerifier, Provider, KeyCache, RefreshState, key,
}

abbrev pub max_assertion_bytes : ℕ
max_assertion_bytes = 32768

-- The verifiers by their issuers.
abbrev pub Providers : Type 0
Providers = List (Text × ProviderVerifier)

-- What is kept for one provider.
pub record ProviderState (K : Type 0) : Type 0 where
  pub cache : KeyCache K
  pub refresh : RefreshState

-- The providers' states by their issuers, and the world that they share.
pub record VerifierSet (W K : Type 0) : Type 0 where
  pub states : Text → ProviderState K
  pub world : W

unfoldable pub insert_providers : ℕ → Providers → List OidcProviderPolicy → Providers
insert_providers max_staleness providers [] = providers
insert_providers max_staleness providers (configured ∷ rest) =
    insert_providers max_staleness
      (put configured.issuer
        (record {
          issuer = configured.issuer;
          audience = configured.audience;
          max_staleness = max_staleness;
        })
        providers)
      rest

abbrev discovered :
    {E : Type 0}
    → Result (Unit {0}) E
    → Bool
    → ℕ
    → List OidcProviderPolicy
    → Result Providers OidcVerifyError
discovered (err e) client max_staleness providers = err OidcVerifyError.invalid
discovered (ok _) false max_staleness providers = err OidcVerifyError.unavailable
discovered (ok _) true max_staleness providers = ok (insert_providers max_staleness [] providers)

-- `client` says whether the HTTP client can be built.
unfoldable pub discover_with_additional_ca :
    (Text → Option Url) → Bool → OidcPolicy → ℕ → Result Providers OidcVerifyError
unfolding insert_providers
discover_with_additional_ca parse client policy max_staleness =
    discovered (validate parse policy) client max_staleness policy.providers

-- What `decode_header` gives, as far as the code asks.
pub record Header : Type 0 where
  pub is_rs256 : Bool
  pub typ : Option Text
  pub kid : Option Text

-- What the code asks of `decode` beside the algorithm.
pub record Validation : Type 0 where
  pub issuer : Text
  pub audience : Text
  pub required_spec_claims : List Text
  pub validate_nbf : Bool
  pub leeway : ℕ

-- `decode_header`, `insecure_decode` of the issuer, and `decode` of an object; a failure is `none`.
pub record Jwt (K : Type 0) : Type 0 where
  pub decode_header : Text → Option Header
  pub unverified_issuer : Text → Option Text
  pub decode : Text → K → Validation → Option (List (Text × Value))

abbrev pub required_claims : List Text
required_claims = text "iss" ∷ text "sub" ∷ text "aud" ∷ text "exp" ∷ text "iat" ∷ []

abbrev pub validation : ProviderVerifier → Validation
validation provider = record {
  issuer = provider.issuer;
  audience = provider.audience;
  required_spec_claims = required_claims;
  validate_nbf = true;
  leeway = 30;
}

abbrev pub header_refused : Header → Bool
header_refused header = not header.is_rs256 || not (header.typ == some (text "JWT"))

module _ {W K J : Type 0} (o : Outside W K J) (providers : Providers) (jwt : Jwt K) where
  abbrev pub S : Type 0 → Type 0
  S A = M (VerifierSet W K) OidcVerifyError A

  abbrev pub or_invalid : {A : Type 0} → Option A → S A
  or_invalid none = fail OidcVerifyError.invalid
  or_invalid (some a) = return a

  abbrev pub invalid_if : Bool → S (Unit {0})
  invalid_if true = fail OidcVerifyError.invalid
  invalid_if false = return tt

  abbrev pub provider_of : Text → VerifierSet W K → Provider W K
  provider_of issuer s = record {
    cache = (s.states issuer).cache;
    refresh = (s.states issuer).refresh;
    world = s.world;
  }

  abbrev pub with_provider : Text → Provider W K → VerifierSet W K → VerifierSet W K
  with_provider issuer p s = record {
    states = λ other.
        if other == issuer then record { cache = p.cache; refresh = p.refresh } else s.states other;
    world = p.world;
  }

  -- The search for a key in one provider's state.
  abbrev pub provider_key : Text → ProviderVerifier → Text → S K
  provider_key issuer provider kid s =
      let r = key o provider kid (provider_of issuer s) in (r.0, with_provider issuer r.1 s)

  abbrev pub read_clock : S ℤ
  read_clock s = (ok (o.clock s.world).0, record s { world = (o.clock s.world).1 })

  unfoldable pub verify : Text → S OidcClaims
  verify assertion = do
    invalid_if (is_empty assertion || ltb max_assertion_bytes (len assertion))
    header ← or_invalid (jwt.decode_header assertion)
    invalid_if (header_refused header)
    kid ← or_invalid header.kid
    issuer ← or_invalid (jwt.unverified_issuer assertion)
    provider ← or_invalid (get providers issuer)
    found ← provider_key issuer provider kid
    values ← or_invalid (jwt.decode assertion found (validation provider))
    now ← read_clock
    from_result (validated_claims values provider.issuer provider.audience now)
