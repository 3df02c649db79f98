-- ===== src/Text/Splits.antt =====
-- Texts that are split: the parts make up the text.
use github_oidc_exchange.Prelude.{
  ℕ, ◌≡◌, refl, [], ◌∷◌, ◌++◌, Option, none, some, nat_eq, list_eq, eq_iff, ◌==◌, Bool-cases,
  Option-cases, inl, inr, arith,
}
use github_oidc_exchange.Text.{
  Text, strip_prefix, split_once, split_once_text, rsplit_once, cons_fst,
}

abbrev pub join : Text → Text × Text → Text
join d (a, b) = a ++ (d ++ b)

pub strip_prefix-eq_some : (p s : Text) {rest : Text} → strip_prefix p s ≡ some rest → s ≡ p ++ rest
unfolding strip_prefix
strip_prefix-eq_some [] s h = cc
strip_prefix-eq_some (c ∷ p) [] h = cc
strip_prefix-eq_some (c ∷ p) (d ∷ s) {rest} h = elim (Bool-cases (c == d)) [
  | inr other ↦ absurd (ground arith)
  | inl hit ↦
      (let same = (eq_iff c d).0 hit in
        let more = strip_prefix-eq_some p s {rest = rest} (ground arith) in cc)
]

eq_of_cons_fst :
    (d : Text) (c : ℕ) (s : Text) (o : Option (Text × Text)) {parts : Text × Text}
    → ((found : Text × Text) → o ≡ some found → s ≡ join d found)
    → cons_fst c o ≡ some parts
    → c ∷ s ≡ join d parts
eq_of_cons_fst d c s none h e = cc
eq_of_cons_fst d c s (some (a, b)) h e = let more = h (a, b) refl in cc

pub split_once-eq_some :
    (d : ℕ) (s : Text) {parts : Text × Text} → split_once d s ≡ some parts → s ≡ join (d ∷ []) parts
unfolding split_once
split_once-eq_some d [] h = cc
split_once-eq_some d (c ∷ s) {parts} h = elim (Bool-cases (c == d)) [
  | inl hit ↦ (let same = (eq_iff c d).0 hit in let e = at_end (ground arith) in cc)
  | inr other ↦
      eq_of_cons_fst (d ∷ []) c s (split_once d s) (λ found. split_once-eq_some d s {parts = found})
        (ground arith)
]
  where
    at_end : some ([], s) ≡ some parts → ([], s) ≡ parts
    at_end e = cc

pub split_once_text-eq_some :
    (d s : Text) {parts : Text × Text} → split_once_text d s ≡ some parts → s ≡ join d parts
unfolding split_once_text
split_once_text-eq_some [] [] h = cc
split_once_text-eq_some (c ∷ d) [] h = cc
split_once_text-eq_some d (c ∷ s) {parts} h = elim (Option-cases (strip_prefix d (c ∷ s))) [
  | inr (rest, found) ↦
      (let whole = strip_prefix-eq_some d (c ∷ s) {rest = rest} found in
        let e = at_start rest (ground arith) in cc)
  | inl missing ↦
      eq_of_cons_fst d c s (split_once_text d s)
        (λ found. split_once_text-eq_some d s {parts = found}) (ground arith)
]
  where
    at_start :
        (rest : Text)
        → ◌≡◌ {A = Option (Text × Text)} (some ([], rest)) (some parts)
        → ([], rest) ≡ parts
    at_start rest e = cc

pub rsplit_once-eq_some :
    (d : ℕ) (s : Text) {parts : Text × Text}
    → rsplit_once d s ≡ some parts
    → s ≡ join (d ∷ []) parts
unfolding rsplit_once
rsplit_once-eq_some d [] h = cc
rsplit_once-eq_some d (c ∷ s) {parts} h =
    let inside : cons_fst c (rsplit_once d s) ≡ some parts → c ∷ s ≡ join (d ∷ []) parts =
      eq_of_cons_fst (d ∷ []) c s (rsplit_once d s)
        (λ found. rsplit_once-eq_some d s {parts = found}) in
    elim (Bool-cases (c == d)) [
      | inr other ↦ inside (ground arith)
      | inl hit ↦ elim (Option-cases (cons_fst c (rsplit_once d s))) [
        | inr (more, found) ↦ inside (ground arith)
        | inl missing ↦ (let same = (eq_iff c d).0 hit in let e = at_start (ground arith) in cc)
      ]
    ]
  where
    at_start : ◌≡◌ {A = Option (Text × Text)} (some ([], s)) (some parts) → ([], s) ≡ parts
    at_start e = cc
