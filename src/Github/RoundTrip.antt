-- ===== src/Github/RoundTrip.antt =====
-- src/github.rs: a number that `numeric_string` writes is read back.
use github_oidc_exchange.Prelude.{
  ℕ, zero, suc, ◌+◌, ◌*◌, ◌/◌, ◌%◌, ◌^◌, ◌≡◌, ◌≤◌, ◌<◌, refl, ap, sym, subst, ◌∙◌, inl, inr, [],
  ◌∷◌, Bool, true, false, ◌&&◌, some, arith, nat_eq, list_eq, Bool-cases, ltb, all, is_empty,
  length,
}
use github_oidc_exchange.Text.{
  Text, text, len, bytes, utf8, starts_with, strip_prefix, is_ascii_digit,
}
use github_oidc_exchange.Oidc.Identifiers.{decimal, decimal_from}
use github_oidc_exchange.Github.Attempt.{digits_value, serialize, deserialize}

utf8-digit : (c : ℕ) → is_ascii_digit c ≡ true → utf8 c ≡ c ∷ []
unfolding utf8 is_ascii_digit
utf8-digit c h = ground arith

bytes-digits : (s : Text) → all is_ascii_digit s ≡ true → bytes s ≡ s
unfolding bytes all
bytes-digits [] h = refl
bytes-digits (c ∷ s) h = rw (bytes-digits s (ground arith), utf8-digit c (ground arith)) refl

digits_value-decimal_from :
    (fuel n : ℕ) (digits : Text)
    → n < fuel
    → digits_value 0 (decimal_from fuel n digits) ≡ digits_value n digits
unfolding digits_value decimal_from
digits_value-decimal_from zero n digits h = absurd (omega arith)
digits_value-decimal_from (suc fuel) n digits h = elim (Bool-cases (ltb n 10)) [
  | inl small ↦ rw small (ap (λ m. digits_value m digits) (omega arith))
  | inr large ↦ rw large (
      digits_value-decimal_from fuel (n / 10) ((b'0' + n % 10) ∷ digits) (ground arith)
      ∙ ap (λ m. digits_value m digits) (omega arith))
]

all-decimal_from :
    (fuel n : ℕ) (digits : Text)
    → n < fuel
    → all is_ascii_digit digits ≡ true
    → all is_ascii_digit (decimal_from fuel n digits) ≡ true
unfolding all decimal_from is_ascii_digit
all-decimal_from zero n digits h k = absurd (omega arith)
all-decimal_from (suc fuel) n digits h k = elim (Bool-cases (ltb n 10)) [
  | inl small ↦ rw small (ground arith)
  | inr large ↦ rw large (
      all-decimal_from fuel (n / 10) ((b'0' + n % 10) ∷ digits) (ground arith)
        (digit (n % 10) (omega arith)))
]
  where
    digit : (d : ℕ) → d < 10 → all is_ascii_digit ((b'0' + d) ∷ digits) ≡ true
    digit d small = ground arith

abbrev pow10 : ℕ → ℕ
pow10 zero = 1
pow10 (suc k) = 10 * pow10 k

-- A number below `10 ^ k` has at most `k` digits.
length-decimal_from :
    (fuel n k : ℕ) (digits : Text)
    → n < fuel
    → n < 10 * pow10 k
    → length (decimal_from fuel n digits) ≤ suc k + length digits
unfolding decimal_from
length-decimal_from zero n k digits h b = absurd (omega arith)
length-decimal_from (suc fuel) n zero digits h b = elim (Bool-cases (ltb n 10)) [
  | inl small ↦ rw small (omega arith)
  | inr large ↦ absurd (ground arith)
]
length-decimal_from (suc fuel) n (suc k) digits h b = elim (Bool-cases (ltb n 10)) [
  | inl small ↦ rw small (omega arith)
  | inr large ↦
      let rest =
        length-decimal_from fuel (n / 10) k ((b'0' + n % 10) ∷ digits) (ground arith)
          (omega arith) in
      rw large (omega (arith, rest))
]

-- A number other than zero is written without a leading zero.
starts_with-decimal_from :
    (fuel n : ℕ) (digits : Text)
    → n < fuel
    → 1 ≤ n
    → starts_with (text "0") (decimal_from fuel n digits) ≡ false
unfolding decimal_from starts_with strip_prefix
starts_with-decimal_from zero n digits h b = absurd (omega arith)
starts_with-decimal_from (suc fuel) n digits h b = elim (Bool-cases (ltb n 10)) [
  | inl small ↦ rw small (ground arith)
  | inr large ↦ rw large (
      starts_with-decimal_from fuel (n / 10) ((b'0' + n % 10) ∷ digits) (ground arith)
        (ground arith))
]

nonempty-decimal_from :
    (fuel n : ℕ) (digits : Text) → n < fuel → is_empty (decimal_from fuel n digits) ≡ false
unfolding decimal_from
nonempty-decimal_from zero n digits h = absurd (omega arith)
nonempty-decimal_from (suc fuel) n digits h = elim (Bool-cases (ltb n 10)) [
  | inl small ↦ rw small refl
  | inr large ↦
      rw large (nonempty-decimal_from fuel (n / 10) ((b'0' + n % 10) ∷ digits) (ground arith))
]

module _ (value : ℕ) where
  decimal-digits : all is_ascii_digit (decimal value) ≡ true
  unfolding decimal all
  decimal-digits = all-decimal_from (suc value) value [] (omega arith) refl

  decimal-value : digits_value 0 (decimal value) ≡ value
  unfolding decimal digits_value
  decimal-value = digits_value-decimal_from (suc value) value [] (omega arith)

  decimal-short : value < 2 ^ 32 → len (decimal value) ≤ 10
  unfolding decimal len
  decimal-short h =
      subst (λ s. length s ≤ 10) (sym (bytes-digits (decimal value) decimal-digits))
        (length-decimal_from (suc value) value 9 [] (omega arith) (omega arith))

  decimal-nonempty : is_empty (decimal value) ≡ false
  unfolding decimal
  decimal-nonempty = nonempty-decimal_from (suc value) value [] (omega arith)

and-false : (a b : Bool) → b ≡ false → (a && b) ≡ false
and-false a b h = ground arith

decimal-canonical :
    (value : ℕ) → (ltb 1 (len (decimal value)) && starts_with (text "0") (decimal value)) ≡ false
unfolding decimal decimal_from len bytes utf8 starts_with strip_prefix
decimal-canonical zero = refl
decimal-canonical (suc n) =
    and-false _ _ (starts_with-decimal_from (suc (suc n)) (suc n) [] (omega arith) (omega arith))

-- What is written of a `u32` is read back as the same number.
pub deserialize-serialize :
    (value : ℕ) → value < 2 ^ 32 → deserialize (serialize value) ≡ some value
unfolding deserialize serialize
deserialize-serialize value h =
    rw
      (
        decimal-nonempty value,
        decimal-canonical value,
        bytes-digits (decimal value) (decimal-digits value),
        decimal-digits value,
        decimal-value value,
      )
      (ground (arith, decimal-short value h))
