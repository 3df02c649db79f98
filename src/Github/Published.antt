-- ===== src/Github/Published.antt =====
-- src/github.rs: the key that a key document gives for a key ID, and the set that a refresh makes of it.
use mathlib.Core.Option.{or_else}
use github_oidc_exchange.Prelude.{
  ◌≡◌, refl, sym, ap, ◌∙◌, inl, inr, List, [], ◌∷◌, ◌&&◌, ◌==◌, Option, none, some, nat_eq, list_eq,
  option_eq, Bool-cases, Option-cases, get, get-put, if◌then◌else◌,
}
use github_oidc_exchange.Text.{Text}
use github_oidc_exchange.Oidc.Cache.{Jwk}
use github_oidc_exchange.Github.Cache.{Outside, GitHubVerifier, usable_keys, accept_jwk}

module _ {W K J : Type 0} (o : Outside W K J) (p : GitHubVerifier) where
  -- The entry's key, if it is an RS256 signing key of that ID.
  abbrev pub entry_key : Jwk J → Text → Option K
  entry_key jwk kid =
      if jwk.is_rs256 && jwk.is_signature
      then if jwk.key_id == some kid then o.from_jwk jwk.parameters else none
      else none

  -- The last such key of the document.
  unfoldable pub published : List (Jwk J) → Text → Option K
  unfolding or_else
  published [] kid = none
  published (jwk ∷ rest) kid = or_else (published rest kid) (entry_key jwk kid)

  or_else_assoc : (a b c : Option K) → or_else (or_else a b) c ≡ or_else a (or_else b c)
  unfolding or_else
  or_else_assoc none b c = refl
  or_else_assoc (some a) b c = refl

  or_else-none : (a : Option K) → or_else a none ≡ a
  unfolding or_else
  or_else-none none = refl
  or_else-none (some a) = refl

  get-accept_jwk :
      (keys : List (Text × K)) (jwk : Jwk J) (kid : Text)
      → get (accept_jwk o p keys jwk) kid ≡ or_else (entry_key jwk kid) (get keys kid)
  unfolding or_else
  get-accept_jwk keys jwk kid = elim (Bool-cases (jwk.is_rs256 && jwk.is_signature)) [
    | inr unfit ↦ elim (Option-cases jwk.key_id) [
      | inl e ↦ rw (e, unfit) refl
      | inr (named, e) ↦ rw (e, unfit) refl
    ]
    | inl fit ↦ elim (Option-cases jwk.key_id) [
      | inl e ↦ rw (e, fit) refl
      | inr (named, e) ↦ elim (Option-cases (o.from_jwk jwk.parameters)) [
        | inl f ↦ elim (Bool-cases (named == kid)) [
          | inl same ↦ rw (e, fit, f, same) refl
          | inr other ↦ rw (e, fit, f, other) refl
        ]
        | inr (key, f) ↦ elim (Bool-cases (named == kid)) [
          | inl same ↦ rw (e, fit, f, get-put keys named kid key, same) refl
          | inr other ↦ rw (e, fit, f, get-put keys named kid key, other) refl
        ]
      ]
    ]
  ]

  get-usable_keys :
      (keys : List (Text × K)) (document : List (Jwk J)) (kid : Text)
      → get (usable_keys o p keys document) kid ≡ or_else (published document kid) (get keys kid)
  unfolding or_else usable_keys published
  get-usable_keys keys [] kid = refl
  get-usable_keys keys (jwk ∷ rest) kid =
      get-usable_keys (accept_jwk o p keys jwk) rest kid
      ∙ ap (or_else (published rest kid)) (get-accept_jwk keys jwk kid)
      ∙ sym (or_else_assoc (published rest kid) (entry_key jwk kid) (get keys kid))

  -- The set that is made of a document alone gives for each key ID the document's key.
  pub usable_keys-published :
      (document : List (Jwk J)) (kid : Text)
      → get (usable_keys o p [] document) kid ≡ published document kid
  unfolding get
  usable_keys-published document kid =
      get-usable_keys [] document kid ∙ or_else-none (published document kid)
