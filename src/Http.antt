-- ===== src/Http.antt =====
-- src/http.rs: requests and responses, as far as the handlers read and write them. The routing, the
-- limits on bodies and the headers that every response gets are the framework's.
pub mod Exchanges
pub mod Ready
pub mod Documents
pub mod Answers
use github_oidc_exchange.Prelude.{
  ℕ, List, [], ◌∷◌, Option, none, some, ◌==◌, nat_eq, list_eq, get, is_empty, if◌then◌else◌,
}
use github_oidc_exchange.Text.{Text, text, strip_prefix, trim}

-- A header's value: `to_str` reads visible ASCII only.
pub data HeaderValue : Type 0 where
  visible : Text → HeaderValue
  opaque : HeaderValue

abbrev pub HeaderMap : Type 0
HeaderMap = List (Text × HeaderValue)

pub record TokenResponse : Type 0 where
  pub access_token : Text
  pub token_type : Text
  pub expires_in : ℕ

pub data Body : Type 0 where
  empty : Body
  issued : TokenResponse → Body
  error_code : Text → Body
  not_ready : List Text → Body

pub record Response : Type 0 where
  pub status : ℕ
  pub cache_control : Option Text
  pub body : Body

abbrev pub status_only : ℕ → Response
status_only status = record { status = status; cache_control = none; body = Body.empty }

unfoldable pub token_response : Text → ℕ → Response
token_response access_token expires_in = record {
  status = 200;
  cache_control = some (text "no-store");
  body =
      Body.issued (record {
        access_token = access_token;
        token_type = text "Bearer";
        expires_in = expires_in;
      });
}

unfoldable pub oauth_error : ℕ → Text → Response
oauth_error status code = record {
  status = status;
  cache_control = some (text "no-store");
  body = Body.error_code code;
}

abbrev pub to_str : Option HeaderValue → Option Text
to_str none = none
to_str (some HeaderValue.opaque) = none
to_str (some (HeaderValue.visible value)) = some value

abbrev pub bearer_value : Option Text → Option Text
bearer_value none = none
bearer_value (some rest) = if is_empty (trim rest) then none else some (trim rest)

abbrev pub stripped : Option Text → Option Text
stripped none = none
stripped (some value) = strip_prefix (text "Bearer ") value

unfoldable pub bearer_assertion : HeaderMap → Option Text
bearer_assertion headers = bearer_value (stripped (to_str (get headers (text "authorization"))))
