-- ===== src/Digest.antt =====
-- Digests in hexadecimal, as src/replay.rs and the services print them; SHA-256 is a parameter.
use github_oidc_exchange.Prelude.{
  ℕ, zero, suc, ◌+◌, ◌-◌, ◌/◌, ◌%◌, List, [], ◌∷◌, ltb, if◌then◌else◌, is_empty,
}
use github_oidc_exchange.Text.{Text, bytes}

abbrev pub take {ℓ} : {A : Type ℓ} → ℕ → List A → List A
take zero xs = []
take (suc n) [] = []
take (suc n) (x ∷ xs) = x ∷ take n xs

hex_digit : ℕ → ℕ
hex_digit d = if ltb d 10 then b'0' + d else b'a' + (d - 10)

-- `format!("{byte:02x}")` for each byte.
unfoldable pub hex : List ℕ → Text
unfolding hex_digit
hex [] = []
hex (b ∷ bs) = hex_digit (b / 16) ∷ hex_digit (b % 16) ∷ hex bs

-- `hash_identifier` and `hash_value`: eight bytes of the digest, and nothing for an empty text.
unfoldable pub hash_identifier : (List ℕ → List ℕ) → Text → Text
unfolding hex
hash_identifier sha256 value = if is_empty value then [] else hex (take 8 (sha256 (bytes value)))
