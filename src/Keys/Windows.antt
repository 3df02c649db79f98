-- ===== src/Keys/Windows.antt =====
-- src/keys.rs: what loading and signing have to do with the validity window of the current key.
use github_oidc_exchange.Prelude.{
  ℕ, ◌≡◌, refl, subst, inl, inr, true, List, [], ◌∷◌, Option, some, String, Result, ok, ok_or, get,
  ◌==◌, nat_eq, list_eq, arith, Option-cases, Bool-cases, Result-cases,
}
use github_oidc_exchange.Text.{Text}
use github_oidc_exchange.Replay.{DateTime}
use github_oidc_exchange.Keys.{
  KeyError, KeySpec, KeyRingFile, KeyRing, in_window, Loading, note_key, load_keys, start_loading,
  load, sign_at,
}

-- A keyring signs only within the window of its current key, and with that key.
pub sign_at-inversion :
    {K C : Type 0} (kind : String) (encode : Text → K → C → Option Text) (keyring : KeyRing K)
    (claims : C) (now : DateTime) {token : Text}
    → sign_at kind encode keyring claims now ≡ ok token
    → (in_window keyring.current_not_before keyring.current_not_after now ≡ true)
      × (key : K) × (get keyring.keys keyring.current_kid ≡ some key)
      × (encode keyring.current_kid key claims ≡ some token)
unfolding sign_at
sign_at-inversion kind encode keyring claims now h =
    elim (Option-cases (get keyring.keys keyring.current_kid)) [
      | inl missing ↦ absurd (ground arith)
      | inr (key, found) ↦ (ground arith, key, found, ground arith)
    ]

module _ {K : Type 0} (kind : String) (decode : Text → Result K String) (current_kid : Text)
    (now : DateTime) where
  -- Where the loop finds the current key valid, the window it keeps contains the time.
  abbrev Noted : Loading K → Type 0
  Noted l =
      l.current_valid ≡ true
      → (window : DateTime × DateTime) × (l.current_window ≡ some window)
        × (in_window window.0 window.1 now ≡ true)

  note_key-Noted :
      (spec : KeySpec) (key : K) (l : Loading K)
      → Noted l
      → Noted (note_key kind decode current_kid now spec key l)
  note_key-Noted spec key l h = elim (Bool-cases (spec.kid == current_kid)) [
    | inl same ↦ rw same (λ v. ((spec.not_before, spec.not_after), refl, v))
    | inr other ↦ rw other h
  ]

  load_keys-cons :
      (l : Loading K) (spec : KeySpec) (specs : List KeySpec) {result : Loading K}
      → load_keys kind decode current_kid now l (spec ∷ specs) ≡ ok result
      → (key : K) × (decode spec.material ≡ ok key)
        × (load_keys kind decode current_kid now
              (note_key kind decode current_kid now spec key l)
              specs
            ≡ ok result)
  unfolding load_keys
  load_keys-cons l spec specs h = elim (Result-cases (decode spec.material)) [
    | inl (key, decoded) ↦ (key, decoded, ground arith)
    | inr (x, refused) ↦ absurd (ground arith)
  ]

  load_keys-Noted :
      (l : Loading K) (specs : List KeySpec) {result : Loading K}
      → Noted l
      → load_keys kind decode current_kid now l specs ≡ ok result
      → Noted result
  unfolding load_keys
  load_keys-Noted l [] {result} h p = subst Noted (same p) h
    where
      same : {E : Type 0} → ◌≡◌ {A = Result (Loading K) E} (ok l) (ok result) → l ≡ result
      same q = cc
  load_keys-Noted l (spec ∷ specs) {result} h p =
      let (key, decoded, rest) = load_keys-cons l spec specs p in
      load_keys-Noted (note_key kind decode current_kid now spec key l) specs
        (note_key-Noted spec key l h) rest

load-parts :
    {K : Type 0} (kind : String) (decode : Text → Result K String) (version : Text)
    (opened : Result KeyRingFile String) (now : DateTime) (threshold : ℕ) {keyring : KeyRing K}
    → load kind decode version opened now threshold ≡ ok keyring
    → (input : KeyRingFile) × (l : Loading K) × (window : DateTime × DateTime) × (key : K)
      × (load_keys kind decode input.current_kid now (start_loading kind decode) input.keys ≡ ok l)
      × (l.current_valid ≡ true)
      × (get l.keys input.current_kid ≡ some key)
      × (l.current_window ≡ some window)
      × (keyring ≡ record {
        current_kid = input.current_kid;
        current_not_before = window.0;
        current_not_after = window.1;
        readiness_threshold = threshold;
        keys = l.keys;
      })
unfolding load
load-parts kind decode version opened now threshold {keyring} h = elim (Result-cases opened) [
  | inr (x, refused) ↦ absurd (ground arith)
  | inl (input, e) ↦
      elim (Result-cases
        (load_keys kind decode input.current_kid now (start_loading kind decode) input.keys)) [
          | inr (x, refused) ↦ absurd (ground arith)
          | inl (l, f) ↦ elim (Option-cases (get l.keys input.current_kid)) [
            | inl missing ↦ absurd (ground arith)
            | inr (key, found) ↦ elim (Option-cases l.current_window) [
              | inl unset ↦ absurd (ground arith)
              | inr (window, set) ↦
                  (input, l, window, key, f, ground arith, found, set, ground arith)
            ]
          ]
        ]
]

-- A keyring that loads can sign at the time of its loading: it holds the current key, and the time
-- is within that key's window, so that signing fails only where the encoder does.
pub load-sign_at :
    {K C : Type 0} (kind : String) (decode : Text → Result K String) (version : Text)
    (opened : Result KeyRingFile String) (now : DateTime) (threshold : ℕ) (keyring : KeyRing K)
    (encode : Text → K → C → Option Text) (claims : C)
    → load kind decode version opened now threshold ≡ ok keyring
    → (key : K) × (get keyring.keys keyring.current_kid ≡ some key)
      × (in_window keyring.current_not_before keyring.current_not_after now ≡ true)
      × (sign_at kind encode keyring claims now
          ≡ ok_or (encode keyring.current_kid key claims) KeyError.signing)
unfolding sign_at
load-sign_at kind decode version opened now threshold keyring encode claims h =
    let (input, l, window, key, loaded, valid, found, set, made) =
      load-parts kind decode version opened now threshold h in
    let (noted, set', inside) =
      load_keys-Noted kind decode input.current_kid now (start_loading kind decode) input.keys
        (λ p. cc) loaded valid in
    let opened_now : in_window window.0 window.1 now ≡ true =
      subst (λ w. in_window w.0 w.1 now ≡ true) (same_window set' set) inside in
    rw (made) (key, found, opened_now, rw (opened_now, found) refl)
  where
    same_window :
        {o : Option (DateTime × DateTime)} {a b : DateTime × DateTime}
        → o ≡ some a
        → o ≡ some b
        → a ≡ b
    same_window p q = cc
