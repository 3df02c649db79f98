-- ===== src/Text.antt =====
-- Rust's `str` as the code points of a text; `len` and `bytes` go by its UTF-8 encoding.
pub mod Splits
use Prim.Native.Char.{code}
use mathlib.Core.List.{reverse}
use github_oidc_exchange.Prelude.{
  ℕ, ◌+◌, ◌/◌, ◌%◌, List, [], ◌∷◌, ◌++◌, map, Bool, true, false, ◌&&◌, ◌||◌, Option, none, some,
  String, ltb, leb, ◌==◌, nat_eq, list_eq, if◌then◌else◌, length, any, is_empty, list_beq,
}

abbrev pub Text : Type 0
Text = List ℕ

-- A literal of the source.
abbrev pub text : String → Text
text String.[] = []
text (String.◌∷◌ c s) = code c ∷ text s

-- The UTF-8 encoding of one code point.
unfoldable pub utf8 : ℕ → List ℕ
utf8 c =
    if ltb c 0x80
    then c ∷ []
    else if ltb c 0x800
    then (0xC0 + c / 64) ∷ (0x80 + c % 64) ∷ []
    else if ltb c 0x10000
    then (0xE0 + c / 4096) ∷ (0x80 + c / 64 % 64) ∷ (0x80 + c % 64) ∷ []
    else (0xF0 + c / 262144) ∷ (0x80 + c / 4096 % 64) ∷ (0x80 + c / 64 % 64) ∷ (0x80 + c % 64) ∷ []

unfoldable pub bytes : Text → List ℕ
unfolding utf8
bytes [] = []
bytes (c ∷ s) = utf8 c ++ bytes s

-- `str::len`: the number of bytes.
unfoldable pub len : Text → ℕ
unfolding bytes
len s = length (bytes s)

unfoldable pub strip_prefix : Text → Text → Option Text
strip_prefix [] s = some s
strip_prefix (p ∷ ps) [] = none
strip_prefix (p ∷ ps) (c ∷ s) = if p == c then strip_prefix ps s else none

abbrev pub is_some {ℓ} : {A : Type ℓ} → Option A → Bool
is_some none = false
is_some (some a) = true

unfoldable pub starts_with : Text → Text → Bool
unfolding strip_prefix
starts_with p s = is_some (strip_prefix p s)

-- `suffix` is tried at each position.
unfoldable pub ends_with : Text → Text → Bool
unfolding list_beq
ends_with p [] = is_empty p
ends_with p (c ∷ s) = (c ∷ s) == p || ends_with p s

unfoldable pub contains_text : Text → Text → Bool
unfolding starts_with
contains_text p [] = is_empty p
contains_text p (c ∷ s) = starts_with p (c ∷ s) || contains_text p s

unfoldable pub contains_char : ℕ → Text → Bool
unfolding any
contains_char c s = any (λ d. d == c) s

abbrev cons_fst : ℕ → Option (Text × Text) → Option (Text × Text)
cons_fst c none = none
cons_fst c (some (a, b)) = some (c ∷ a, b)

-- `str::split_once` at a character: the parts before and after its first occurrence.
unfoldable pub split_once : ℕ → Text → Option (Text × Text)
split_once d [] = none
split_once d (c ∷ s) = if c == d then some ([], s) else cons_fst c (split_once d s)

-- `str::split_once` at a text: the parts before and after its first occurrence.
unfoldable pub split_once_text : Text → Text → Option (Text × Text)
split_once_text d [] = if is_empty d then some ([], []) else none
split_once_text d (c ∷ s) = elim (strip_prefix d (c ∷ s)) [
  | some rest ↦ some ([], rest)
  | none ↦ cons_fst c (split_once_text d s)
]

abbrev or_here : Text → Option (Text × Text) → Option (Text × Text)
or_here s none = some ([], s)
or_here s (some parts) = some parts

-- `str::rsplit_once` at a character: the parts before and after its last occurrence.
unfoldable pub rsplit_once : ℕ → Text → Option (Text × Text)
rsplit_once d [] = none
rsplit_once d (c ∷ s) =
    let rest = cons_fst c (rsplit_once d s) in if c == d then or_here s rest else rest

-- `str::strip_suffix`.
unfoldable pub strip_suffix : Text → Text → Option Text
unfolding strip_prefix
strip_suffix d s = elim (strip_prefix (reverse d) (reverse s)) [
  | none ↦ none
  | some rest ↦ some (reverse rest)
]

unfoldable drop_char : ℕ → Text → Text
drop_char d [] = []
drop_char d (c ∷ s) = if c == d then drop_char d s else c ∷ s

-- `str::trim_end_matches` at a character.
unfoldable pub trim_end_matches : ℕ → Text → Text
unfolding drop_char
trim_end_matches d s = reverse (drop_char d (reverse s))

abbrev cons_head : ℕ → List Text → List Text
cons_head c [] = (c ∷ []) ∷ []
cons_head c (p ∷ ps) = (c ∷ p) ∷ ps

-- `str::split` at a character; there is always a part.
unfoldable pub split : ℕ → Text → List Text
split d [] = [] ∷ []
split d (c ∷ s) = if c == d then [] ∷ split d s else cons_head c (split d s)

abbrev pub is_between : ℕ → ℕ → ℕ → Bool
is_between lo hi c = leb lo c && leb c hi

unfoldable pub is_ascii_digit : ℕ → Bool
is_ascii_digit = is_between b'0' b'9'

unfoldable pub is_ascii_graphic : ℕ → Bool
is_ascii_graphic = is_between b'!' b'~'

unfoldable pub is_ascii_lowercase : ℕ → Bool
is_ascii_lowercase = is_between b'a' b'z'

unfoldable pub is_ascii_alphanumeric : ℕ → Bool
unfolding is_ascii_digit is_ascii_lowercase
is_ascii_alphanumeric c = is_ascii_digit c || is_ascii_lowercase c || is_between b'A' b'Z' c

-- `byte.is_ascii_digit() || (b'a'..=b'f').contains(&byte)`, as the validators write it.
unfoldable pub is_lower_hex : ℕ → Bool
unfolding is_ascii_digit
is_lower_hex c = is_ascii_digit c || is_between b'a' b'f' c

-- `char::is_whitespace`: Unicode's White_Space.
unfoldable pub is_whitespace : ℕ → Bool
is_whitespace c =
    is_between 9 13 c
    || c == 0x20
    || c == 0x85
    || c == 0xA0
    || c == 0x1680
    || is_between 0x2000 0x200A c
    || is_between 0x2028 0x2029 c
    || c == 0x202F
    || c == 0x205F
    || c == 0x3000

abbrev lower : ℕ → ℕ
lower c = if is_between b'A' b'Z' c then c + 32 else c

unfoldable pub to_ascii_lowercase : Text → Text
to_ascii_lowercase s = map lower s

unfoldable pub trim_start : Text → Text
unfolding is_whitespace
trim_start [] = []
trim_start (c ∷ s) = if is_whitespace c then trim_start s else c ∷ s

-- `str::trim`.
unfoldable pub trim : Text → Text
unfolding trim_start
trim s = reverse (trim_start (reverse (trim_start s)))
