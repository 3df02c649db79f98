-- ===== src/Browser/Verify.antt =====
-- src/browser_hop1.rs: `StewardBrowserAssertionVerifier`. The document and the decoding of keys and
-- tokens are the libraries'.
use github_oidc_exchange.Prelude.{
  ℕ, List, [], ◌∷◌, Bool, true, false, not, ◌||◌, Option, none, some, Result, ok, ◌>>=◌, ◌>>◌,
  refuse_if, ok_or, ltb, ◌==◌, nat_eq, list_eq, option_eq, if◌then◌else◌, is_empty, get, put,
}
use github_oidc_exchange.Prelude.Int.{ℤ, pos, ◌+ℤ◌, checked_sub, leb_ℤ, ltb_ℤ}
use github_oidc_exchange.Text.{Text, text, len}
use github_oidc_exchange.Oidc.{Url}
use github_oidc_exchange.Browser.{
  BrowserHop1RequestClaims, BrowserHop1VerifierError, invalid, max_assertion_bytes,
  max_assertion_lifetime_seconds, clock_skew_seconds, valid_https_issuer, canonical_email,
  canonical_user_id, operation_id, is_github_oauth_connect,
}

pub record StewardBrowserAssertionVerifier (K : Type 0) : Type 0 where
  pub issuer : Text
  pub audience : Text
  pub keys : List (Text × K)

-- One entry of a JWKS, as far as the code asks.
pub record Jwk (J : Type 0) : Type 0 where
  pub key_id : Option Text
  pub is_es256 : Bool
  pub is_signature : Bool
  pub parameters : J

abbrev pub Verified : Type 0 → Type 0
Verified A = Result A BrowserHop1VerifierError

abbrev pub has_key {ℓ} : {A : Type ℓ} → Option A → Bool
has_key none = false
has_key (some key) = true

module _ {K J : Type 0} (parse : Text → Option Url) (from_jwk : J → Option K) where
  -- A usable entry is refused where its key cannot be read or its `kid` is there already.
  abbrev pub add_key : List (Text × K) → Text → J → Verified (List (Text × K))
  add_key keys kid parameters = do
    key ← ok_or (from_jwk parameters) invalid
    refuse_if (has_key (get keys kid)) invalid
    ok (put kid key keys)

  abbrev pub accept_jwk : List (Text × K) → Jwk J → Verified (List (Text × K))
  accept_jwk keys jwk = elim jwk.key_id [
    | none ↦ ok keys
    | some kid ↦
        if is_empty kid || not jwk.is_es256 || not jwk.is_signature
        then ok keys
        else add_key keys kid jwk.parameters
  ]

  unfoldable pub load_keys : List (Text × K) → List (Jwk J) → Verified (List (Text × K))
  load_keys keys [] = ok keys
  load_keys keys (jwk ∷ rest) = accept_jwk keys jwk >>= λ more. load_keys more rest

  -- `opened` is what opening and parsing the file gives.
  unfoldable pub load :
      Option (List (Jwk J)) → Text → Text → Verified (StewardBrowserAssertionVerifier K)
  load opened issuer audience = do
    refuse_if (not (valid_https_issuer parse issuer) || is_empty audience) invalid
    document ← ok_or opened invalid
    keys ← load_keys [] document
    refuse_if (is_empty keys) invalid
    ok (record { issuer = issuer; audience = audience; keys = keys })

-- What `decode_header` gives, as far as the code asks.
pub record Header : Type 0 where
  pub is_es256 : Bool
  pub typ : Option Text
  pub kid : Option Text

-- What the code asks of `decode` beside the algorithm.
pub record Validation : Type 0 where
  pub issuer : Text
  pub audience : Text
  pub required_spec_claims : List Text
  pub validate_nbf : Bool
  pub leeway : ℕ

-- `decode_header` and `decode` of the library; a failure of either is `none`.
pub record Jwt (K : Type 0) : Type 0 where
  pub decode_header : Text → Option Header
  pub decode : Text → K → Validation → Option BrowserHop1RequestClaims

abbrev pub required_claims : List Text
required_claims =
    text "iss" ∷ text "sub" ∷ text "aud" ∷ text "exp" ∷ text "iat" ∷ text "nbf" ∷ text "jti" ∷ []

unfoldable pub claims_refused : Text → Text → ℤ → ℤ → BrowserHop1RequestClaims → Bool
claims_refused issuer audience now lifetime claims =
    not (claims.iss == issuer)
    || not (claims.aud == audience)
    || leb_ℤ lifetime (pos 0)
    || ltb_ℤ max_assertion_lifetime_seconds lifetime
    || ltb_ℤ (now +ℤ pos clock_skew_seconds) claims.iat
    || ltb_ℤ claims.iat claims.nbf
    || not (canonical_user_id claims.sub)
    || not (canonical_email claims.email)
    || not claims.email_verified
    || is_empty claims.jti
    || not (operation_id claims.operation_id)
    || not (is_github_oauth_connect claims.operation)

module _ {K : Type 0} (jwt : Jwt K) (v : StewardBrowserAssertionVerifier K) where
  abbrev pub validation : Validation
  validation = record {
    issuer = v.issuer;
    audience = v.audience;
    required_spec_claims = required_claims;
    validate_nbf = true;
    leeway = clock_skew_seconds;
  }

  -- `now` is the reading of the clock, in seconds.
  unfoldable pub verify : Text → ℤ → Verified BrowserHop1RequestClaims
  verify assertion now = do
    refuse_if (is_empty assertion || ltb max_assertion_bytes (len assertion)) invalid
    header ← ok_or (jwt.decode_header assertion) invalid
    refuse_if (not header.is_es256 || not (header.typ == some (text "JWT"))) invalid
    kid ← ok_or header.kid invalid
    key ← ok_or (get v.keys kid) invalid
    claims ← ok_or (jwt.decode assertion key validation) invalid
    lifetime ← ok_or (checked_sub claims.exp claims.iat) invalid
    refuse_if (claims_refused v.issuer v.audience now lifetime claims) invalid
    ok claims
