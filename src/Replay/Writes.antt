-- ===== src/Replay/Writes.antt =====
-- src/replay.rs: the requests of the ledger that write, and LIST, through the view of the records.
use github_oidc_exchange.Prelude.{
  eq_iff, ◌≡◌, ◌≢◌, sym, ap, subst, ◌∙◌, inl, inr, ◌||◌, ◌∷◌, ◌++◌, Option, none, some, Result, ok,
  Option-cases, Bool-cases, ◌==◌, nat_eq,
}
use github_oidc_exchange.Text.{Text}
use github_oidc_exchange.Effects.{return, fail}
use github_oidc_exchange.Effects.Triple.{Triple, bind, branch}
use github_oidc_exchange.Replay.{ReplayError, unavailable, Lease, LeaseList}
use github_oidc_exchange.Replay.Store.{StoreLaws, Has, credential-Has}
use github_oidc_exchange.Replay.Ledger.{
  or_unavailable, Environment, Ledger, CreateResult, UpdateResult, credential, create, post, put,
  list_page, list_leases, remove, update, delete,
}

module _ {S : Type 0} (e : Environment S) (view : S → Text → Option Lease)
    (laws : StoreLaws e view) where
  -- The record of `name` has the spec and the labels of `lease`.
  abbrev pub Stores : Text → Lease → Ledger S → Type 0
  Stores name lease ledger =
      (stored : Lease) × (view ledger.api name ≡ some stored)
      × (stored.spec ≡ lease.spec)
      × (stored.metadata.labels ≡ lease.metadata.labels)

  abbrev pub Anything : Ledger S → Type 0
  Anything ledger = Unit

  abbrev pub Created : Lease → Result CreateResult ReplayError → Ledger S → Type 0
  Created lease r ledger = r ≡ ok CreateResult.created → Stores lease.metadata.name lease ledger

  post-Created :
      (lease : Lease) (token : Text) → Triple Anything (post e lease token) (Created lease)
  unfolding post
  post-Created lease token ledger _ = elim (Option-cases (e.api.post token lease ledger.api).0) [
    | inl unsent ↦ rw unsent (λ p. cc)
    | inr (status, answered) ↦ rw answered (elim (Bool-cases (status == 201)) [
      | inl t ↦ rw t (λ _.
          laws.post_stores token lease ledger.api (answered ∙ ap some ((eq_iff status 201).0 t)))
      | inr f ↦ elim (Bool-cases (status == 409)) [
        | inl t ↦ rw (f, t) (λ p. cc)
        | inr g ↦ rw (f, g) (λ p. cc)
      ]
    ])
  ]

  -- A POST that creates leaves a record with the spec and labels sent.
  pub create-Created : (lease : Lease) → Triple Anything (create e lease) (Created lease)
  unfolding create
  create-Created lease =
      bind Anything (λ r. Anything) (Created lease) (credential e) (post e lease) (λ s _. tt)
        (post-Created lease) (λ x s _ p. cc)

  abbrev pub Updated : Text → Lease → Result UpdateResult ReplayError → Ledger S → Type 0
  Updated name lease r ledger = r ≡ ok UpdateResult.updated → Stores name lease ledger

  put-Updated :
      (name : Text) (lease : Lease) (token : Text)
      → Triple Anything (put e name lease token) (Updated name lease)
  unfolding put
  put-Updated name lease token ledger _ =
      elim (Option-cases (e.api.item_url (e.collection_url ++ (b'/' ∷ name)))) [
        | inl refused ↦ rw refused (λ p. cc)
        | inr (url, accepted) ↦ elim (Option-cases (e.api.put token url lease ledger.api).0) [
          | inl unsent ↦ rw (accepted, unsent) (λ p. cc)
          | inr (status, answered) ↦
              rw (accepted, answered)
                (elim (Bool-cases (status == 200)) [
                  | inl t ↦ rw t (λ _.
                      laws.put_stores token url name lease ledger.api accepted
                        (answered ∙ ap some ((eq_iff status 200).0 t)))
                  | inr f ↦ elim (Bool-cases (status == 409)) [
                    | inl t ↦ rw (f, t) (λ p. cc)
                    | inr g ↦ rw (f, g) (λ p. cc)
                  ]
                ])
        ]
      ]

  pub update-Updated :
      (name : Text) (lease : Lease) → Triple Anything (update e name lease) (Updated name lease)
  unfolding update
  update-Updated name lease =
      bind Anything (λ r. Anything) (Updated name lease) (credential e) (put e name lease)
        (λ s _. tt) (put-Updated name lease) (λ x s _ p. cc)

  list_page-Has :
      (name : Text) (l : Lease) (continue_token : Option Text) (token : Text)
      → Triple
          (Has e view laws name l)
          (list_page e continue_token token)
          (λ r. Has e view laws name l)
  unfolding list_page
  list_page-Has name l continue_token token ledger h =
      let kept =
        subst (λ v. v name ≡ some l) (sym (laws.list_keeps token continue_token ledger.api)) h in
      elim (Option-cases (e.api.list token continue_token ledger.api).0) [
        | inl unsent ↦ rw unsent kept
        | inr ((status, body), answered) ↦ rw answered (
            branch (Has e view laws name l) (λ r. Has e view laws name l) (status == 200)
              (or_unavailable e body) (fail unavailable) (λ _. decoded body) (λ _ s i. i) _ kept)
      ]
    where
      decoded :
          (body : Option LeaseList)
          → Triple (Has e view laws name l) (or_unavailable e body) (λ r. Has e view laws name l)
      decoded none s i = i
      decoded (some page) s i = i

  pub list_leases-Has :
      (name : Text) (l : Lease) (continue_token : Option Text)
      → Triple (Has e view laws name l) (list_leases e continue_token) (λ r. Has e view laws name l)
  unfolding list_leases
  list_leases-Has name l continue_token =
      bind (Has e view laws name l) (λ r. Has e view laws name l) (λ r. Has e view laws name l)
        (credential e) (list_page e continue_token) (credential-Has e view laws name l)
        (list_page-Has name l continue_token) (λ x s h. h)

  remove-Has :
      (name : Text) (l : Lease) (other version : Text) (token : Text)
      → name ≢ other
      → Triple (Has e view laws name l) (remove e other version token) (λ r. Has e view laws name l)
  unfolding remove
  remove-Has name l other version token apart ledger h =
      elim (Option-cases (e.api.item_url (e.collection_url ++ (b'/' ∷ other)))) [
        | inl refused ↦ rw refused h
        | inr (url, accepted) ↦
            let kept : Has e view laws name l
                (record ledger { api = (e.api.delete token url version ledger.api).1 }) =
              laws.delete_others token url other version ledger.api name accepted apart ∙ h in
            elim (Option-cases (e.api.delete token url version ledger.api).0) [
              | inl unsent ↦ rw (accepted, unsent) kept
              | inr (status, answered) ↦
                  rw (accepted, answered)
                    (branch (Has e view laws name l) (λ r. Has e view laws name l)
                      (status == 200 || status == 202 || status == 404 || status == 409) (return tt)
                      (fail unavailable) (λ _ s i. i) (λ _ s i. i) _ kept)
            ]
      ]

  -- A DELETE leaves the other records.
  pub delete-Has :
      (name : Text) (l : Lease) (other version : Text)
      → name ≢ other
      → Triple (Has e view laws name l) (delete e other version) (λ r. Has e view laws name l)
  unfolding delete
  delete-Has name l other version apart =
      bind (Has e view laws name l) (λ r. Has e view laws name l) (λ r. Has e view laws name l)
        (credential e) (remove e other version) (credential-Has e view laws name l)
        (λ token. remove-Has name l other version token apart) (λ x s h. h)
