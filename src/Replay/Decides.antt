-- ===== src/Replay/Decides.antt =====
-- src/replay.rs: the answer of `use_once` where the API is up: it is decided by the record that stands.
use github_oidc_exchange.Prelude.{
  ◌≡◌, refl, sym, ap, subst, ◌∙◌, inl, inr, ◌∷◌, ◌++◌, false, Option, none, some, Result, ok, err,
  is_empty, Option-cases, Bool-cases, nat_eq, if◌then◌else◌,
}
use github_oidc_exchange.Prelude.Int.{ℤ}
use github_oidc_exchange.Text.{Text, trim}
use github_oidc_exchange.Effects.{M, ◌>>=◌, continue}
use github_oidc_exchange.Replay.{ReplayError, replayed, DateTime, Chrono, Lease}
use github_oidc_exchange.Replay.Record.{lease_name, retained_until, new_lease, expired}
use github_oidc_exchange.Replay.Ledger.{
  Environment, Ledger, CreateResult, UpdateResult, credential, create, post, get_lease, fetch,
  update, put, with_version, reclaim_found, reclaim_rounds, reclaim_expired, cleanup_one, recorded,
  use_once,
}
use github_oidc_exchange.Replay.Store.{StoreLaws}
use github_oidc_exchange.Replay.Once.{new_lease-name}
use github_oidc_exchange.Replay.Sweeps.{cleanup_one-ok}

-- Kubernetes's documented answers while it is up and the credential is good: POST makes a record of
-- a new name and reports a conflict for a name that is taken, GET gives the record, and PUT of the
-- version that stands replaces it.
pub record StoreAnswers {S : Type 0} (e : Environment S) (view : S → Text → Option Lease)
    : Type 0 where
  pub credential_given :
      (s : S)
      → (contents : Text) × ((e.api.credential s).0 ≡ some contents)
        × (is_empty (trim contents) ≡ false)
  pub item_at :
      (name : Text) → (url : Text) × (e.api.item_url (e.collection_url ++ (b'/' ∷ name)) ≡ some url)
  pub post_new :
      (token : Text) (lease : Lease) (s : S)
      → view s lease.metadata.name ≡ none
      → (e.api.post token lease s).0 ≡ some 201
  pub post_taken :
      (token : Text) (lease l : Lease) (s : S)
      → view s lease.metadata.name ≡ some l
      → (e.api.post token lease s).0 ≡ some 409
  pub get_standing :
      (token url name : Text) (l : Lease) (s : S)
      → e.api.item_url (e.collection_url ++ (b'/' ∷ name)) ≡ some url
      → view s name ≡ some l
      → (e.api.get token url s).0 ≡ some (200, some l)
  pub put_standing :
      (token url name : Text) (lease l : Lease) (s : S)
      → e.api.item_url (e.collection_url ++ (b'/' ∷ name)) ≡ some url
      → view s name ≡ some l
      → lease.metadata.resource_version ≡ l.metadata.resource_version
      → (e.api.put token url lease s).0 ≡ some 200

-- What a record that stands, if one does, makes of an attempt to use its name.
abbrev pub decided : Chrono → DateTime → Option Lease → Result (Unit {0}) ReplayError
decided chrono now none = ok tt
decided chrono now (some l) = if expired chrono l now then ok tt else err replayed

-- The record has a version, as Kubernetes gives one to each.
abbrev pub Versioned : Option Lease → Type 0
Versioned none = Unit
Versioned (some l) =
    (version : Text) × (l.metadata.resource_version ≡ some version) × (is_empty version ≡ false)

-- A step that succeeds, then the rest.
step :
    {S E A B : Type 0} (m : M S E A) (f : A → M S E B) (s : S) {a : A}
    → (m s).0 ≡ ok a
    → (m >>= f) s ≡ f a (m s).1
step {S} {E} {A} {B} m f s {a} h = go (m s) h
  where
    go : (r : Result A E × S) → r.0 ≡ ok a → continue f r ≡ f a r.1
    go (ok b, t) h = ap (λ x. f x t) (same h)
      where
        same : {b : A} → ◌≡◌ {A = Result A E} (ok b) (ok a) → b ≡ a
        same h = cc
    go (err x, t) h = cc

module _ {S : Type 0} (e : Environment S) (view : S → Text → Option Lease) (laws : StoreLaws e view)
    (answers : StoreAnswers e view) where
  -- The record of the name, through the ledger.
  abbrev standing : Ledger S → Text → Option Lease
  standing ledger name = view ledger.api name

  create-created :
      (lease : Lease) (s : Ledger S)
      → standing s lease.metadata.name ≡ none
      → (create e lease s).0 ≡ ok CreateResult.created
  unfolding create credential post
  create-created lease s h =
      let (contents, read, present) = answers.credential_given s.api in
      let posted =
        answers.post_new (trim contents) lease (e.api.credential s.api).1
          (ap (λ v. v lease.metadata.name) (laws.credential_keeps s.api) ∙ h) in
      rw (read, present, posted) refl

  create-conflict :
      (lease l : Lease) (s : Ledger S)
      → standing s lease.metadata.name ≡ some l
      → ((create e lease s).0 ≡ ok CreateResult.conflict)
        × (standing (create e lease s).1 lease.metadata.name ≡ some l)
  unfolding create credential post
  create-conflict lease l s h =
      let (contents, read, present) = answers.credential_given s.api in
      let held = ap (λ v. v lease.metadata.name) (laws.credential_keeps s.api) ∙ h in
      let posted = answers.post_taken (trim contents) lease l (e.api.credential s.api).1 held in
      let kept =
        laws.post_keeps (trim contents) lease (e.api.credential s.api).1 lease.metadata.name l
          held in
      rw (read, present, posted) (refl, kept)

  get_lease-standing :
      (name : Text) (l : Lease) (s : Ledger S)
      → standing s name ≡ some l
      → ((get_lease e name s).0 ≡ ok (some l)) × (standing (get_lease e name s).1 name ≡ some l)
  unfolding get_lease credential fetch
  get_lease-standing name l s h =
      let (contents, read, present) = answers.credential_given s.api in
      let (url, at) = answers.item_at name in
      let held = ap (λ v. v name) (laws.credential_keeps s.api) ∙ h in
      let got =
        answers.get_standing (trim contents) url name l (e.api.credential s.api).1 at held in
      let kept =
        ap (λ v. v name) (laws.get_keeps (trim contents) url (e.api.credential s.api).1) ∙ held in
      rw (read, present, at, got) (refl, kept)

  update-updated :
      (name : Text) (lease l : Lease) (s : Ledger S)
      → standing s name ≡ some l
      → lease.metadata.resource_version ≡ l.metadata.resource_version
      → (update e name lease s).0 ≡ ok UpdateResult.updated
  unfolding update credential put
  update-updated name lease l s h same =
      let (contents, read, present) = answers.credential_given s.api in
      let (url, at) = answers.item_at name in
      let held = ap (λ v. v name) (laws.credential_keeps s.api) ∙ h in
      let replaced =
        answers.put_standing (trim contents) url name lease l (e.api.credential s.api).1 at held
          same in
      rw (read, present, at, replaced) refl

  -- An expired record is replaced in the first round.
  reclaim-expired :
      (name : Text) (lease l : Lease) (now : DateTime) (s : Ledger S)
      → Versioned (some l)
      → standing s name ≡ some l
      → (reclaim_expired e name lease now s).0 ≡ decided e.chrono now (some l)
  unfolding reclaim_expired reclaim_rounds reclaim_found
  reclaim-expired name lease l now s (version, versioned, present) h =
      let (got, kept) = get_lease-standing name l s h in
      ap (λ r. r.0)
        (step (get_lease e name)
          (reclaim_found e (reclaim_rounds e 1 name lease now) 1 name lease now) s got)
      ∙ elim (Bool-cases (expired e.chrono l now)) [
        | inr fresh ↦ rw fresh refl
        | inl over ↦
            rw (over, versioned, present)
              (ap (λ r. r.0)
                (step (update e name (with_version e lease version)) _ _ (
                  update-updated name (with_version e lease version) l (get_lease e name s).1 kept
                    (sym versioned))))
      ]

  -- Cleanup leaves the answer.
  cleaned :
      (now : DateTime) (r : Result (Unit {0}) ReplayError × Ledger S)
      {answer : Result (Unit {0}) ReplayError}
      → r.0 ≡ answer
      → (continue (λ _. cleanup_one e now) r).0 ≡ answer
  cleaned now (ok _, t) h = cleanup_one-ok e now t ∙ h
  cleaned now (err x, t) h = h

  recorded-decided :
      (lease : Lease) (now : DateTime) (s : Ledger S)
      → Versioned (standing s lease.metadata.name)
      → ((create e lease >>= recorded e lease.metadata.name lease now) s).0
        ≡ decided e.chrono now (standing s lease.metadata.name)
  recorded-decided lease now s versioned = elim (Option-cases (standing s lease.metadata.name)) [
    | inl free ↦ rw free (
        ap (λ r. r.0)
          (step (create e lease) (recorded e lease.metadata.name lease now) s
            (create-created lease s free))
        ∙ cleanup_one-ok e now (create e lease s).1)
    | inr (l, taken) ↦
        let (conflict, held) = create-conflict lease l s taken in
        rw taken (
          ap (λ r. r.0)
            (step (create e lease) (recorded e lease.metadata.name lease now) s conflict)
          ∙ cleaned now (reclaim_expired e lease.metadata.name lease now (create e lease s).1) (
              reclaim-expired lease.metadata.name lease l now (create e lease s).1
                (subst Versioned taken versioned) held))
  ]

  -- While the API is up, where the clock allows a record of the assertion, `use_once` succeeds if no
  -- record of the assertion's name stands or the one that stands is expired, and answers `replayed`
  -- if an unexpired one stands.
  pub use_once-decided :
      (now : DateTime) (jti : Text) (expires_at : ℤ) (retained : DateTime) (lease : Lease)
      (s : Ledger S)
      → retained_until e.chrono expires_at (e.chrono.timestamp now) ≡ ok retained
      → new_lease e.chrono (lease_name e.sha256 jti) retained now ≡ ok lease
      → Versioned (view s.api (lease_name e.sha256 jti))
      → (use_once e now jti expires_at s).0
        ≡ decided e.chrono now (view s.api (lease_name e.sha256 jti))
  unfolding use_once
  use_once-decided now jti expires_at retained lease s kept made versioned =
      let same = new_lease-name e view laws (lease_name e.sha256 jti) retained now made in
      rw (kept, made)
        (recorded-decided lease now s
            (subst (λ name. Versioned (view s.api name)) (sym same) versioned)
          ∙ ap (λ name. decided e.chrono now (view s.api name)) same)
