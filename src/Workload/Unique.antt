-- ===== src/Workload/Unique.antt =====
-- src/workload.rs: what `WorkloadPolicy::validate` is for: a username has one identity.
use github_oidc_exchange.Prelude.{
  ◌≡◌, refl, sym, ◌∙◌, inl, inr, List, [], ◌∷◌, true, false, ◌==◌, nat_eq, list_eq, eq_iff,
  Bool-cases, Option-cases, arith, contains, filter, only, In, ok,
}
use github_oidc_exchange.Text.{Text, split, strip_prefix}
use github_oidc_exchange.Sort.{sort}
use github_oidc_exchange.Workload.{WorkloadPolicy, WorkloadIdentity, service_account_prefix}
use github_oidc_exchange.Workload.Identities.{
  Seen, see, nothing_seen, two_segments, name_refused, validate_identities, validate, authorize,
}

validate_identities-cons :
    (seen : Seen) (identity : WorkloadIdentity) (rest : List WorkloadIdentity)
    → validate_identities seen (identity ∷ rest) ≡ ok tt
    → (contains seen.usernames identity.username ≡ false)
      × (validate_identities (see seen identity) rest ≡ ok tt)
unfolding validate_identities name_refused
validate_identities-cons seen identity rest h =
    elim (Option-cases (strip_prefix service_account_prefix identity.username)) [
      | inl missing ↦ absurd (ground arith)
      | inr (suffix, e) ↦ elim (Option-cases (two_segments (split b':' suffix))) [
        | inl missing ↦ absurd (ground arith)
        | inr (names, f) ↦ (ground arith, ground arith)
      ]
    ]

seen-unmatched :
    (seen : Seen) (identities : List WorkloadIdentity) (username : Text)
    → contains seen.usernames username ≡ true
    → validate_identities seen identities ≡ ok tt
    → filter (λ identity. identity.username == username) identities ≡ []
unfolding filter contains
seen-unmatched seen [] username h v = refl
seen-unmatched seen (identity ∷ rest) username h v =
    let (clear, later) = validate_identities-cons seen identity rest v in
    elim (Bool-cases (identity.username == username)) [
      | inl same ↦ absurd (ground (arith, eq_iff identity.username username))
      | inr other ↦ rw other (seen-unmatched (see seen identity) rest username (ground arith) later)
    ]

listed-only :
    (seen : Seen) (identities : List WorkloadIdentity) {identity : WorkloadIdentity}
    → validate_identities seen identities ≡ ok tt
    → In identity identities
    → filter (λ other. other.username == identity.username) identities ≡ identity ∷ []
unfolding filter contains
listed-only seen [] v member = elim member [ ]
listed-only seen (identity ∷ rest) v In.here =
    let (clear, later) = validate_identities-cons seen identity rest v in
    let self = (eq_iff identity.username identity.username).1 refl in
    rw (self, seen-unmatched (see seen identity) rest identity.username (rw self refl) later) refl
listed-only seen (other ∷ rest) {identity} v (In.there member) =
    let (clear, later) = validate_identities-cons seen other rest v in
    let found = listed-only (see seen other) rest later member in
    elim (Bool-cases (other.username == identity.username)) [
      | inr miss ↦ rw miss found
      | inl hit ↦ absurd (
          nonempty (
            sym found ∙ seen-unmatched (see seen other) rest identity.username (rw hit refl) later))
    ]
  where
    nonempty : ◌≡◌ {A = List WorkloadIdentity} (identity ∷ []) [] → ⊥
    nonempty p = cc

-- In a valid policy, each listed identity is the one that its username is authorized for, with its
-- roles sorted.
pub authorize-listed :
    (policy : WorkloadPolicy) (identity : WorkloadIdentity)
    → validate policy ≡ ok tt
    → In identity policy.identities
    → authorize policy identity.username ≡ ok (record identity { roles = sort identity.roles })
unfolding validate authorize only
authorize-listed policy identity v member =
    rw (listed-only nothing_seen policy.identities (ground arith) member) refl
