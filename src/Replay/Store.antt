-- ===== src/Replay/Store.antt =====
-- src/replay.rs: what the ledger relies on in the Kubernetes API, as laws over a view of the records
-- that the API keeps; each request of the ledger seen through that view.
use mathlib.Core.Path.{ap₂}
use github_oidc_exchange.Prelude.{
  eq_iff, ℕ, ◌≡◌, ◌≢◌, refl, sym, ap, subst, ◌∙◌, inl, inr, ◌∷◌, ◌++◌, Option, none, some, Result,
  ok, err, Option-cases, Bool-cases, is_empty, ◌==◌, nat_eq,
}
use github_oidc_exchange.Text.{Text, trim}
use github_oidc_exchange.Effects.{return, fail}
use github_oidc_exchange.Effects.Triple.{Triple, bind, branch}
use github_oidc_exchange.Replay.{ReplayError, unavailable, Lease}
use github_oidc_exchange.Replay.Ledger.{
  Environment, Ledger, CreateResult, credential, create, post, fetch, get_result, create_result,
  get_lease,
}

-- Kubernetes's documented behaviour, for requests that nothing overtakes: POST refuses an existing
-- name, a body that GET returns is the record, PUT replaces the record and no other, and DELETE
-- removes no other.
pub record StoreLaws {S : Type 0} (e : Environment S) (view : S → Text → Option Lease)
    : Type 0 where
  pub credential_keeps : (s : S) → view (e.api.credential s).1 ≡ view s
  pub post_fresh :
      (token : Text) (lease : Lease) (s : S)
      → (e.api.post token lease s).0 ≡ some 201
      → view s lease.metadata.name ≡ none
  pub post_stores :
      (token : Text) (lease : Lease) (s : S)
      → (e.api.post token lease s).0 ≡ some 201
      → (stored : Lease) × (view (e.api.post token lease s).1 lease.metadata.name ≡ some stored)
        × (stored.spec ≡ lease.spec)
        × (stored.metadata.labels ≡ lease.metadata.labels)
  pub post_keeps :
      (token : Text) (lease : Lease) (s : S) (name : Text) (l : Lease)
      → view s name ≡ some l
      → view (e.api.post token lease s).1 name ≡ some l
  pub get_keeps : (token url : Text) (s : S) → view (e.api.get token url s).1 ≡ view s
  pub get_found :
      (token url name : Text) (s : S) (l : Lease)
      → e.api.item_url (e.collection_url ++ (b'/' ∷ name)) ≡ some url
      → (e.api.get token url s).0 ≡ some (200, some l)
      → view s name ≡ some l
  pub get_missing :
      (token url name : Text) (s : S) (body : Option Lease)
      → e.api.item_url (e.collection_url ++ (b'/' ∷ name)) ≡ some url
      → (e.api.get token url s).0 ≡ some (404, body)
      → view s name ≡ none
  pub put_stores :
      (token url name : Text) (lease : Lease) (s : S)
      → e.api.item_url (e.collection_url ++ (b'/' ∷ name)) ≡ some url
      → (e.api.put token url lease s).0 ≡ some 200
      → (stored : Lease) × (view (e.api.put token url lease s).1 name ≡ some stored)
        × (stored.spec ≡ lease.spec)
        × (stored.metadata.labels ≡ lease.metadata.labels)
  pub put_others :
      (token url name : Text) (lease : Lease) (s : S) (other : Text)
      → e.api.item_url (e.collection_url ++ (b'/' ∷ name)) ≡ some url
      → other ≢ name
      → view (e.api.put token url lease s).1 other ≡ view s other
  pub list_keeps :
      (token : Text) (continue_token : Option Text) (s : S)
      → view (e.api.list token continue_token s).1 ≡ view s
  pub delete_others :
      (token url name version : Text) (s : S) (other : Text)
      → e.api.item_url (e.collection_url ++ (b'/' ∷ name)) ≡ some url
      → other ≢ name
      → view (e.api.delete token url version s).1 other ≡ view s other

module _ {S : Type 0} (e : Environment S) (view : S → Text → Option Lease)
    (laws : StoreLaws e view) where
  -- The records are `v`.
  abbrev pub Shows : (Text → Option Lease) → Ledger S → Type 0
  Shows v ledger = view ledger.api ≡ v

  -- Reading the credential leaves the records.
  pub credential-Shows : (v : Text → Option Lease) → Triple (Shows v) (credential e) (λ r. Shows v)
  unfolding credential
  credential-Shows v ledger h = elim (Option-cases (e.api.credential ledger.api).0) [
    | inl missing ↦ rw missing (laws.credential_keeps ledger.api ∙ h)
    | inr (contents, read) ↦ rw read (elim (Bool-cases (is_empty (trim contents))) [
      | inl empty ↦ rw empty (laws.credential_keeps ledger.api ∙ h)
      | inr present ↦ rw present (laws.credential_keeps ledger.api ∙ h)
    ])
  ]

  -- What a GET says of the record of `name`, where the records are `v`.
  abbrev pub Reads : (Text → Option Lease) → Text → Result (Option Lease) ReplayError → Type 0
  Reads v name (ok found) = v name ≡ found
  Reads v name (err x) = Unit

  abbrev pub ReadBy :
      (Text → Option Lease) → Text → Result (Option Lease) ReplayError → Ledger S → Type 0
  ReadBy v name r ledger = Reads v name r × Shows v ledger

  get_result-ReadBy :
      (v : Text → Option Lease) (name : Text) (status : ℕ) (body : Option Lease)
      → ((l : Lease) → status ≡ 200 → body ≡ some l → v name ≡ some l)
      → (status ≡ 404 → v name ≡ none)
      → Triple (Shows v) (get_result e status body) (ReadBy v name)
  get_result-ReadBy v name status none found missing =
      branch (Shows v) (ReadBy v name) (status == 200) (fail unavailable) _ (λ _ s h. (tt, h))
        λ _.
          branch (Shows v) (ReadBy v name) (status == 404) (return none) (fail unavailable)
            (λ t s h. (missing ((eq_iff status 404).0 t), h)) (λ _ s h. (tt, h))
  get_result-ReadBy v name status (some l) found missing =
      branch (Shows v) (ReadBy v name) (status == 200) (return (some l)) _
        (λ t s h. (found l ((eq_iff status 200).0 t) refl, h))
        λ _.
          branch (Shows v) (ReadBy v name) (status == 404) (return none) (fail unavailable)
            (λ t s h. (missing ((eq_iff status 404).0 t), h)) (λ _ s h. (tt, h))

  fetch-ReadBy :
      (v : Text → Option Lease) (name token : Text)
      → Triple (Shows v) (fetch e name token) (ReadBy v name)
  unfolding fetch
  fetch-ReadBy v name token ledger h =
      elim (Option-cases (e.api.item_url (e.collection_url ++ (b'/' ∷ name)))) [
        | inl refused ↦ rw refused (tt, h)
        | inr (url, accepted) ↦
            let shown = laws.get_keeps token url ledger.api ∙ h in
            elim (Option-cases (e.api.get token url ledger.api).0) [
              | inl unsent ↦ rw (accepted, unsent) (tt, shown)
              | inr ((status, body), answered) ↦
                  rw (accepted, answered)
                    (get_result-ReadBy v name status body
                      (λ l t u.
                        subst (λ w. w name ≡ some l) h
                          (laws.get_found token url name ledger.api l accepted
                            (answered ∙ ap₂ (λ c b. some (c, b)) t u)))
                      (λ t.
                        subst (λ w. w name ≡ none) h
                          (laws.get_missing token url name ledger.api body accepted
                            (answered ∙ ap (λ c. some (c, body)) t)))
                      _ shown)
            ]
      ]

  -- A successful `get_lease` says what the record of that name is.
  pub get_lease-ReadBy :
      (v : Text → Option Lease) (name : Text) → Triple (Shows v) (get_lease e name) (ReadBy v name)
  unfolding get_lease
  get_lease-ReadBy v name =
      bind (Shows v) (λ r. Shows v) (ReadBy v name) (credential e) (fetch e name)
        (credential-Shows v) (λ token. fetch-ReadBy v name token) (λ x s h. (tt, h))

  abbrev pub Has : Text → Lease → Ledger S → Type 0
  Has name l ledger = view ledger.api name ≡ some l

  pub credential-Has :
      (name : Text) (l : Lease) → Triple (Has name l) (credential e) (λ r. Has name l)
  credential-Has name l ledger h =
      subst (λ v. v name ≡ some l) (sym (credential-Shows (view ledger.api) ledger refl)) h

  -- A record that stands before a POST stands after it, and the POST does not create it anew.
  abbrev pub Refuses : Text → Text → Lease → Result CreateResult ReplayError → Ledger S → Type 0
  Refuses name other l r ledger = Has other l ledger × (name ≡ other → r ≢ ok CreateResult.created)

  create_result-Refuses :
      (status : ℕ) (name other : Text) (l : Lease)
      → (name ≡ other → status ≢ 201)
      → Triple (Has other l) (create_result e status) (Refuses name other l)
  create_result-Refuses status name other l fresh =
      branch (Has other l) (Refuses name other l) (status == 201) (return CreateResult.created) _
        (λ t s h. (h, λ same. absurd (fresh same ((eq_iff status 201).0 t))))
        λ _.
          branch (Has other l) (Refuses name other l) (status == 409) (return CreateResult.conflict)
            (fail unavailable) (λ _ s h. (h, λ _. λ p. cc)) (λ _ s h. (h, λ _. λ p. cc))

  post-Refuses :
      (lease : Lease) (other : Text) (l : Lease) (token : Text)
      → Triple (Has other l) (post e lease token) (Refuses lease.metadata.name other l)
  unfolding post
  post-Refuses lease other l token ledger h =
      let kept = laws.post_keeps token lease ledger.api other l h in
      elim (Option-cases (e.api.post token lease ledger.api).0) [
        | inl unsent ↦ rw unsent (kept, λ _. λ p. cc)
        | inr (status, answered) ↦ rw answered (
            create_result-Refuses status lease.metadata.name other l
              (λ same is_created.
                not_none
                  (subst (λ n. view ledger.api n ≡ none) same
                    (laws.post_fresh token lease ledger.api (answered ∙ ap some is_created)))
                  h)
              _ kept)
      ]
    where
      not_none : {o : Option Lease} → o ≡ none → o ≡ some l → ⊥
      not_none p q = cc

  pub create-Refuses :
      (lease : Lease) (other : Text) (l : Lease)
      → Triple (Has other l) (create e lease) (Refuses lease.metadata.name other l)
  unfolding create
  create-Refuses lease other l =
      bind (Has other l) (λ r. Has other l) (Refuses lease.metadata.name other l) (credential e)
        (post e lease) (credential-Has other l) (post-Refuses lease other l)
        (λ x s h. (h, λ _. λ p. cc))
