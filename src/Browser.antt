-- ===== src/Browser.antt =====
-- src/browser_hop1.rs: the data of the browser exchange, and the checks of values. The parser of
-- URLs is a parameter.
pub mod Verify
pub mod Service
pub mod Issued
pub mod Accepted
use github_oidc_exchange.Prelude.{
  ℕ, ◌≡◌, List, [], ◌∷◌, Bool, true, false, not, ◌&&◌, Option, none, some, ◌==◌, nat_eq, list_eq,
  if◌then◌else◌, all, any, is_empty,
}
use github_oidc_exchange.Prelude.Int.{ℤ, pos}
use github_oidc_exchange.Text.{
  Text, text, len, bytes, strip_prefix, split_once, is_lower_hex, is_whitespace, to_ascii_lowercase,
}
use github_oidc_exchange.Oidc.{Url}

abbrev pub browser_hop1_issuer_role : Text
browser_hop1_issuer_role = text "browser-hop1-issuer"

abbrev pub max_assertion_bytes : ℕ
max_assertion_bytes = 8192

abbrev pub max_assertion_lifetime_seconds : ℤ
max_assertion_lifetime_seconds = pos 60

abbrev pub clock_skew_seconds : ℕ
clock_skew_seconds = 5

pub data BrowserHop1Operation : Type 0 where
  github_oauth_connect other : BrowserHop1Operation

pub record BrowserHop1RequestClaims : Type 0 where
  pub iss : Text
  pub sub : Text
  pub aud : Text
  pub exp : ℤ
  pub iat : ℤ
  pub nbf : ℤ
  pub jti : Text
  pub email : Text
  pub email_verified : Bool
  pub operation : BrowserHop1Operation
  pub operation_id : Text

pub data BrowserHop1VerifierError : Type 0 where
  invalid : BrowserHop1VerifierError

abbrev is_some {ℓ} : {A : Type ℓ} → Option A → Bool
is_some none = false
is_some (some a) = true

abbrev https_url : Option Url → Bool
https_url none = false
https_url (some url) =
    url.scheme == text "https"
    && is_some url.host_str
    && is_empty url.username
    && not (is_some url.password)
    && not (is_some url.query)
    && not (is_some url.fragment)

unfoldable pub valid_https_issuer : (Text → Option Url) → Text → Bool
valid_https_issuer parse value = https_url (parse value)

canonical_parts : Text → Option (Text × Text) → Bool
canonical_parts value none = false
canonical_parts value (some (local, domain)) =
    not (is_empty local)
    && not (is_empty domain)
    && not (any is_whitespace value)
    && value == to_ascii_lowercase value

unfoldable pub canonical_email : Text → Bool
unfolding canonical_parts
canonical_email value = canonical_parts value (split_once b'@' value)

-- 32 characters in lower-case hexadecimal after a prefix.
abbrev pub hex_suffix : Option Text → Bool
hex_suffix none = false
hex_suffix (some suffix) = len suffix == 32 && all is_lower_hex (bytes suffix)

unfoldable pub canonical_user_id : Text → Bool
canonical_user_id value = hex_suffix (strip_prefix (text "usr_") value)

unfoldable pub operation_id : Text → Bool
operation_id value = hex_suffix (strip_prefix (text "op_") value)

abbrev pub is_github_oauth_connect : BrowserHop1Operation → Bool
is_github_oauth_connect BrowserHop1Operation.github_oauth_connect = true
is_github_oauth_connect BrowserHop1Operation.other = false
