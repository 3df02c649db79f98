-- ===== src/Oidc/Identifiers.antt =====
-- src/oidc.rs: `replay_identifier`, `provider_scoped_subject` and `write_replay_component`. SHA-256 is
-- a parameter; the bytes that are written to one hasher are one list.
use github_oidc_exchange.Prelude.{
  ℕ, zero, suc, ◌+◌, ◌/◌, ◌%◌, ◌^◌, List, [], ◌∷◌, ◌++◌, Option, none, some, ltb, if◌then◌else◌,
}
use github_oidc_exchange.Prelude.Int.{ℤ, pos, negsuc}
use github_oidc_exchange.Text.{Text, text, bytes, len}
use github_oidc_exchange.Digest.{hex}
use github_oidc_exchange.Oidc.{OidcClaims}

unfoldable pub decimal_from : ℕ → ℕ → Text → Text
decimal_from zero n digits = digits
decimal_from (suc fuel) n digits =
    let more = decimal_from fuel (n / 10) ((b'0' + n % 10) ∷ digits) in
    if ltb n 10 then (b'0' + n) ∷ digits else more

-- `to_string` of an unsigned and of a signed number.
unfoldable pub decimal : ℕ → Text
unfolding decimal_from
decimal n = decimal_from (suc n) n []

unfoldable pub decimal_signed : ℤ → Text
unfolding decimal
decimal_signed (pos n) = decimal n
decimal_signed (negsuc n) = b'-' ∷ decimal (suc n)

-- `(value.len() as u64).to_be_bytes()`.
unfoldable pub to_be_bytes : ℕ → List ℕ
to_be_bytes n =
    (n / 2 ^ 56 % 256)
    ∷ (n / 2 ^ 48 % 256)
    ∷ (n / 2 ^ 40 % 256)
    ∷ (n / 2 ^ 32 % 256)
    ∷ (n / 2 ^ 24 % 256)
    ∷ (n / 2 ^ 16 % 256)
    ∷ (n / 2 ^ 8 % 256)
    ∷ (n % 256)
    ∷ []

unfoldable pub write_replay_component : Text → List ℕ
write_replay_component value = to_be_bytes (len value) ++ bytes value

-- What is hashed for a claim set with a `jti`, and for a Jenkins build.
unfoldable pub jti_preimage : Text → Text → List ℕ
jti_preimage issuer jti =
    write_replay_component issuer
    ++ (write_replay_component (text "jti") ++ write_replay_component jti)

unfoldable pub build_preimage : Text → Text → ℤ → ℕ → List ℕ
build_preimage issuer subject issued_at build_number =
    write_replay_component issuer
    ++ (write_replay_component (text "jenkins-build")
        ++ (write_replay_component subject
            ++ (write_replay_component (decimal_signed issued_at)
                ++ write_replay_component (decimal build_number))))

unfoldable pub replay_preimage : OidcClaims → Option (List ℕ)
replay_preimage claims = choose claims.jti claims.build_number
  where
    choose : Option Text → Option ℕ → Option (List ℕ)
    choose (some jti) build_number = some (jti_preimage claims.issuer jti)
    choose none (some build_number) =
        some (build_preimage claims.issuer claims.subject claims.issued_at build_number)
    choose none none = none

unfoldable pub replay_identifier : (List ℕ → List ℕ) → OidcClaims → Option Text
unfolding replay_preimage
replay_identifier sha256 claims = elim (replay_preimage claims) [
  | none ↦ none
  | some preimage ↦ some (text "oidc-" ++ hex (sha256 preimage))
]

unfoldable pub provider_scoped_subject : (List ℕ → List ℕ) → OidcClaims → Text
provider_scoped_subject sha256 claims =
    text "oidc:"
    ++ hex (sha256 (write_replay_component claims.issuer ++ write_replay_component claims.subject))
