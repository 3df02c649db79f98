-- ===== src/Keys.antt =====
-- src/keys.rs: loading a keyring, signing, readiness and the public key set. `KeyRing` and
-- `RsaKeyRing` are one model over the key type; decoding and encoding of keys are parameters.
pub mod Windows
use Prim.Native.String
use github_oidc_exchange.Prelude.{
  ℕ, ◌≡◌, Bool, true, false, not, ◌&&◌, ◌||◌, List, [], ◌∷◌, ◌++◌, Option, none, some, String,
  Result, ok, err, ◌>>=◌, ◌>>◌, refuse_if, ok_or, map_err, map, any, get, put, contains, is_empty,
  length, ltb, ◌==◌, nat_eq, list_eq, if◌then◌else◌, filter_map,
}
use github_oidc_exchange.Prelude.Int.{ℤ, pos_part, ltb_ℤ, leb_ℤ}
use github_oidc_exchange.Text.{Text}
use github_oidc_exchange.Sort.{text_le}
use github_oidc_exchange.Replay.{DateTime}

pub data KeyError : Type 0 where
  invalid : String → KeyError
  signing : KeyError

-- `KeySpec` and `RsaKeySpec`: `material` is the seed or the PEM text.
pub record KeySpec : Type 0 where
  pub kid : Text
  pub material : Text
  pub not_before : DateTime
  pub not_after : DateTime

pub record KeyRingFile : Type 0 where
  pub version : Text
  pub current_kid : Text
  pub keys : List KeySpec

pub record KeyRing (K : Type 0) : Type 0 where
  pub current_kid : Text
  pub current_not_before : DateTime
  pub current_not_after : DateTime
  pub readiness_threshold : ℕ
  pub keys : List (Text × K)

abbrev pub in_window : DateTime → DateTime → DateTime → Bool
in_window not_before not_after now = leb_ℤ not_before now && ltb_ℤ now not_after

-- The variables of the loop of `load`.
pub record Loading (K : Type 0) : Type 0 where
  pub keys : List (Text × K)
  pub key_ids : List Text
  pub current_valid : Bool
  pub current_window : Option (DateTime × DateTime)

about_current : String → String → KeyError
about_current kind rest =
    invalid (String.◌++◌ "current " (String.◌++◌ kind (String.◌++◌ "signing key" rest)))

-- How `KeyRing` reads a seed: Base64, then a P-256 scalar of 32 bytes.
unfoldable pub decode_p256 :
    {K : Type 0} → (Text → Option (List ℕ)) → (List ℕ → Option K) → Text → Result K String
decode_p256 base64 from_slice material = do
  seed ← ok_or (base64 material) "signing seeds must be Base64"
  refuse_if (not (length seed == 32)) "P-256 private scalars must decode to exactly 32 bytes"
  ok_or (from_slice seed) "P-256 private scalar is outside the valid range"

-- How `RsaKeyRing` reads a key: PKCS#8 PEM, of at least 3072 bits, and consistent.
unfoldable pub decode_rsa :
    {K : Type 0} → (Text → Option K) → (K → ℕ) → (K → Bool) → Text → Result K String
decode_rsa from_pkcs8_pem bits is_consistent material = do
  key ← ok_or (from_pkcs8_pem material) "RSA private keys must be PKCS#8 PEM"
  refuse_if (ltb (bits key) 3072) "RSA private keys must be at least 3072 bits"
  refuse_if (not (is_consistent key)) "RSA private key failed validation"
  ok key

-- `kind` is empty for P-256 keys and `"RSA "` for the others: the messages name it.
module _ {K : Type 0} (kind : String) (decode : Text → Result K String) where
  abbrev note_key : Text → DateTime → KeySpec → K → Loading K → Loading K
  note_key current_kid now spec key l = record {
    keys = if ltb_ℤ now spec.not_after then put spec.kid key l.keys else l.keys;
    key_ids = spec.kid ∷ l.key_ids;
    current_valid =
        if spec.kid == current_kid
        then in_window spec.not_before spec.not_after now
        else l.current_valid;
    current_window =
        if spec.kid == current_kid
        then some (spec.not_before, spec.not_after)
        else l.current_window;
  }

  unfoldable pub load_keys :
      Text → DateTime → Loading K → List KeySpec → Result (Loading K) KeyError
  load_keys current_kid now l [] = ok l
  load_keys current_kid now l (spec ∷ specs) = do
    refuse_if
        (is_empty spec.kid || leb_ℤ spec.not_after spec.not_before || contains l.key_ids spec.kid)
        (invalid "key IDs and validity windows are required")
    key ← map_err invalid (decode spec.material)
    load_keys current_kid now (note_key current_kid now spec key l) specs

  abbrev pub start_loading : Loading K
  start_loading = record { keys = []; key_ids = []; current_valid = false; current_window = none }

  abbrev has_key : Option K → Bool
  has_key none = false
  has_key (some key) = true

  unfoldable pub load :
      Text → Result KeyRingFile String → DateTime → ℕ → Result (KeyRing K) KeyError
  unfolding load_keys about_current
  load version opened now readiness_threshold = do
    input ← map_err invalid opened
    refuse_if (not (input.version == version) || is_empty input.current_kid || is_empty input.keys)
        (invalid (String.◌++◌ "unsupported or empty " (String.◌++◌ kind "keyring")))
    l ← load_keys input.current_kid now start_loading input.keys
    refuse_if (not l.current_valid || not (has_key (get l.keys input.current_kid)))
        (about_current kind " is missing or outside its validity window")
    window ← ok_or l.current_window (about_current kind " validity window is unavailable")
    ok (record {
      current_kid = input.current_kid;
      current_not_before = window.0;
      current_not_after = window.1;
      readiness_threshold = readiness_threshold;
      keys = l.keys;
    })

-- `encode` makes the key's DER form and the token, under the header's `kid`.
unfoldable pub sign_at :
    {K C : Type 0}
    → String
    → (Text → K → C → Option Text)
    → KeyRing K
    → C
    → DateTime
    → Result Text KeyError
unfolding about_current
sign_at kind encode keyring claims now = do
  refuse_if (not (in_window keyring.current_not_before keyring.current_not_after now))
      (about_current kind " is outside its validity window")
  signing_key ← ok_or (get keyring.keys keyring.current_kid) (about_current kind " is unavailable")
  ok_or (encode keyring.current_kid signing_key claims) signing

-- `num_seconds_since` is chrono's `signed_duration_since(_).num_seconds()`.
module _ {K : Type 0} (num_seconds_since : DateTime → DateTime → ℤ) (keyring : KeyRing K) where
  unfoldable pub current_key_seconds_until_expiry : DateTime → ℕ
  current_key_seconds_until_expiry now = pos_part (num_seconds_since keyring.current_not_after now)

  unfoldable pub is_ready_at : DateTime → Bool
  is_ready_at now =
      leb_ℤ keyring.current_not_before now
      && ltb_ℤ now keyring.current_not_after
      && ltb keyring.readiness_threshold (current_key_seconds_until_expiry now)

unfoldable pub contains_kid : {K : Type 0} → KeyRing K → Text → Bool
contains_kid keyring kid = elim (get keyring.keys kid) [ none ↦ false | some _ ↦ true ]

-- The public part of a key, under its `kid`.
pub record PublicJwk (J : Type 0) : Type 0 where
  pub kid : Text
  pub parameters : J

module _ {J : Type 0} where
  insert_jwk : PublicJwk J → List (PublicJwk J) → List (PublicJwk J)
  insert_jwk j [] = j ∷ []
  insert_jwk j (k ∷ ks) = if text_le j.kid k.kid then j ∷ k ∷ ks else k ∷ insert_jwk j ks

  unfoldable pub sort_jwks : List (PublicJwk J) → List (PublicJwk J)
  unfolding insert_jwk
  sort_jwks [] = []
  sort_jwks (j ∷ js) = insert_jwk j (sort_jwks js)

  -- `publish` gives a key's public parameters, and none for the point at infinity.
  abbrev with_kid : Text → Option J → Option (PublicJwk J)
  with_kid kid none = none
  with_kid kid (some j) = some (record { kid = kid; parameters = j })

  unfoldable pub jwks : {K : Type 0} → (K → Option J) → KeyRing K → List (PublicJwk J)
  unfolding sort_jwks
  jwks publish keyring =
      sort_jwks (filter_map (λ entry. with_kid entry.0 (publish entry.1)) keyring.keys)

  unfoldable pub extend : List (PublicJwk J) → List (PublicJwk J) → List (PublicJwk J)
  unfolding sort_jwks
  extend keys other = sort_jwks (keys ++ other)

unfoldable pub ensure_disjoint_from :
    {K R : Type 0} → KeyRing R → KeyRing K → Result (Unit {0}) KeyError
ensure_disjoint_from rsa keyring =
    refuse_if (any (λ entry. contains_kid keyring entry.0) rsa.keys)
      (invalid "P-256 and RSA keyrings must use globally unique key IDs")
