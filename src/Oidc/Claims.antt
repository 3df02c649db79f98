-- ===== src/Oidc/Claims.antt =====
-- src/oidc.rs: `validated_claims`, `exact_audience` and the identifiers that are made of claims.
use github_oidc_exchange.Prelude.{
  ℕ, List, [], ◌∷◌, Bool, true, false, not, ◌||◌, Option, none, some, Result, ok, err, ◌>>=◌, ◌>>◌,
  refuse_if, ok_or, ◌==◌, nat_eq, list_eq, if◌then◌else◌, get,
}
use github_oidc_exchange.Prelude.Int.{ℤ, pos, ◌+ℤ◌, checked_sub, leb_ℤ, ltb_ℤ, in_i64}
use github_oidc_exchange.Text.{Text, text}
use github_oidc_exchange.Oidc.{OidcClaims, OidcVerifyError, Value}
use github_oidc_exchange.Oidc.Policy.{bounded_graphic}

abbrev pub max_source_lifetime_seconds : ℤ
max_source_lifetime_seconds = pos 600

abbrev pub Verified : Type 0 → Type 0
Verified A = Result A OidcVerifyError

abbrev pub as_string : Option Value → Verified Text
as_string (some (Value.string s)) = ok s
as_string _ = err OidcVerifyError.invalid

-- `Value::as_i64` and `Value::as_u64`.
abbrev pub as_i64 : Option Value → Verified ℤ
as_i64 (some (Value.number n)) = if in_i64 n then ok n else err OidcVerifyError.invalid
as_i64 _ = err OidcVerifyError.invalid

abbrev pub as_u64 : Option Value → Option ℕ
as_u64 (some (Value.number (pos n))) = some n
as_u64 _ = none

unfoldable pub exact_audience : Option Value → Text → Bool
exact_audience (some (Value.string actual)) expected = actual == expected
exact_audience (some (Value.array (some actual ∷ []))) expected = actual == expected
exact_audience _ expected = false

-- `get("jti").map(..).transpose()`: absent, a text, or refused.
abbrev pub optional_string : Option Value → Verified (Option Text)
optional_string none = ok none
optional_string (some (Value.string s)) = ok (some s)
optional_string (some _) = err OidcVerifyError.invalid

abbrev pub jti_refused : Option Text → Bool
jti_refused none = false
jti_refused (some value) = not (bounded_graphic value 128)

abbrev pub neither : Option Text → Option ℕ → Bool
neither none none = true
neither _ _ = false

-- The condition of `validated_claims` on the claims that every assertion has.
unfoldable pub assertion_refused :
    List (Text × Value) → Text → Text → ℤ → Text → Text → ℤ → ℤ → ℤ → Bool
assertion_refused values issuer audience now actual_issuer subject expires_at issued_at lifetime =
    not (actual_issuer == issuer)
    || not (exact_audience (get values (text "aud")) audience)
    || not (bounded_graphic subject 2048)
    || leb_ℤ lifetime (pos 0)
    || ltb_ℤ max_source_lifetime_seconds lifetime
    || leb_ℤ expires_at now
    || ltb_ℤ (now +ℤ pos 30) issued_at

-- `now` is the reading of the clock, in seconds.
unfoldable pub validated_claims : List (Text × Value) → Text → Text → ℤ → Verified OidcClaims
validated_claims values issuer audience now = do
  actual_issuer ← as_string (get values (text "iss"))
  subject ← as_string (get values (text "sub"))
  expires_at ← as_i64 (get values (text "exp"))
  issued_at ← as_i64 (get values (text "iat"))
  lifetime ← ok_or (checked_sub expires_at issued_at) OidcVerifyError.invalid
  refuse_if
      (assertion_refused values issuer audience now actual_issuer subject expires_at issued_at
        lifetime)
      OidcVerifyError.invalid
  jti ← optional_string (get values (text "jti"))
  refuse_if (jti_refused jti) OidcVerifyError.invalid
  let build_number = as_u64 (get values (text "build_number"))
  refuse_if (neither jti build_number) OidcVerifyError.invalid
  ok (record {
    issuer = actual_issuer;
    subject = subject;
    expires_at = expires_at;
    issued_at = issued_at;
    jti = jti;
    build_number = build_number;
    values = values;
  })
