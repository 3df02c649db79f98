-- ===== src/Github/Verify.antt =====
-- src/github.rs: `GitHubVerifier::verify`. The header and the decoding of the token are the library's.
use github_oidc_exchange.Prelude.{
  ℕ, List, [], ◌∷◌, Bool, true, false, not, ◌||◌, Option, none, some, ltb, ◌==◌, nat_eq, list_eq,
  option_eq, is_empty,
}
use github_oidc_exchange.Text.{Text, text, len}
use github_oidc_exchange.Contract.{github_issuer}
use github_oidc_exchange.Effects.{◌>>=◌, ◌>>◌, return, fail, from_result}
use github_oidc_exchange.Github.{GitHubClaims, invalid}
use github_oidc_exchange.Github.Accept.{accepted_claims}
use github_oidc_exchange.Github.Cache.{Outside, GitHubVerifier, V, read_clock}
use github_oidc_exchange.Github.Key.{key}

abbrev pub max_assertion_bytes : ℕ
max_assertion_bytes = 32768

-- What `decode_header` gives, as far as the code asks.
pub record Header : Type 0 where
  pub is_rs256 : Bool
  pub typ : Option Text
  pub kid : Option Text

-- What the code asks of `decode` beside the algorithm.
pub record Validation : Type 0 where
  pub issuer : Text
  pub audience : Text
  pub required_spec_claims : List Text
  pub validate_nbf : Bool
  pub leeway : ℕ

-- `decode_header` and `decode` of the library; a failure of either is `none`.
pub record Jwt (K : Type 0) : Type 0 where
  pub decode_header : Text → Option Header
  pub decode : Text → K → Validation → Option GitHubClaims

abbrev pub required_claims : List Text
required_claims =
    text "iss" ∷ text "sub" ∷ text "aud" ∷ text "exp" ∷ text "iat" ∷ text "nbf" ∷ text "jti" ∷ []

abbrev pub validation : Text → Validation
validation audience = record {
  issuer = github_issuer;
  audience = audience;
  required_spec_claims = required_claims;
  validate_nbf = true;
  leeway = 30;
}

abbrev pub header_refused : Header → Bool
header_refused header = not header.is_rs256 || not (header.typ == some (text "JWT"))

module _ {W K J : Type 0} (o : Outside W K J) (p : GitHubVerifier) (jwt : Jwt K) where
  abbrev pub or_invalid : {A : Type 0} → Option A → V o p A
  or_invalid none = fail invalid
  or_invalid (some a) = return a

  abbrev pub invalid_if : Bool → V o p (Unit {0})
  invalid_if true = fail invalid
  invalid_if false = return tt

  unfoldable pub verify : Text → V o p GitHubClaims
  verify assertion = do
    invalid_if (is_empty assertion || ltb max_assertion_bytes (len assertion))
    header ← or_invalid (jwt.decode_header assertion)
    invalid_if (header_refused header)
    kid ← or_invalid header.kid
    found ← key o p kid
    claims ← or_invalid (jwt.decode assertion found (validation p.audience))
    now ← read_clock o p
    from_result (accepted_claims p.audience now claims)
