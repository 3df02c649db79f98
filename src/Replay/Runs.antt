-- ===== src/Replay/Runs.antt =====
-- src/replay.rs: runs of `use_once` by any number of replicas, which share the API and keep their
-- own `cleanup_continue` and readiness, call after call.
use github_oidc_exchange.Prelude.{
  ℕ, ◌+◌, ◌≤◌, ◌≡◌, ◌≢◌, refl, sym, subst, ◌⊎◌, inl, inr, false, ◌&&◌, List, [], ◌∷◌, Option, some,
  Result, ok, arith, Result-cases, Bool-cases, ◌==◌, nat_eq, list_eq, eq_iff, if◌then◌else◌, is_ok,
  All,
}
use github_oidc_exchange.Prelude.Int.{ℤ, pos, ◌+ℤ◌, ◌≤ℤ◌}
use github_oidc_exchange.Text.{Text}
use github_oidc_exchange.Replay.{ReplayError, DateTime, nanos, ChronoLaws, Lease}
use github_oidc_exchange.Replay.Record.{lease_name, expired}
use github_oidc_exchange.Replay.Ledger.{Environment, Ledger, ReadinessCache, use_once}
use github_oidc_exchange.Replay.Store.{StoreLaws}
use github_oidc_exchange.Replay.Once.{use_once-Fails}
use github_oidc_exchange.Replay.Kept.{use_once-Keeps}
use github_oidc_exchange.Replay.Used.{use_once-Spent}

-- One call of `use_once`: the reading of the clock, the arguments, and the state of the replica.
pub record Call : Type 0 where
  pub now : DateTime
  pub jti : Text
  pub expires_at : ℤ
  pub cleanup_continue : Option Text
  pub readiness : ReadinessCache

module _ {S : Type 0} (e : Environment S) where
  abbrev pub replica : Call → S → Ledger S
  replica c s = record { api = s; cleanup_continue = c.cleanup_continue; readiness = c.readiness }

  abbrev pub call : Call → S → Result (Unit {0}) ReplayError × Ledger S
  call c s = use_once e c.now c.jti c.expires_at (replica c s)

  -- How many calls for `jti` succeed.
  unfoldable pub successes : Text → List Call → S → ℕ
  successes jti [] s = 0
  successes jti (c ∷ calls) s =
      (if c.jti == jti && is_ok (call c s).0 then 1 else 0) + successes jti calls (call c s).1.api

-- The call comes before a record of an assertion with that expiry may be taken for expired, and
-- gives that expiry if it is for the assertion.
abbrev pub InTime : Text → ℤ → Call → Type 0
InTime jti expires_at c =
    (c.now ≤ℤ nanos (expires_at +ℤ pos 298)) × ((c.jti ≢ jti) ⊎ (c.expires_at ≡ expires_at))

module _ {S : Type 0} (e : Environment S) (view : S → Text → Option Lease) (laws : StoreLaws e view)
    (jti : Text) (expires_at : ℤ) where
  abbrev SpentIn : S → Type 0
  SpentIn s =
      (stored : Lease) × (view s (lease_name e.sha256 jti) ≡ some stored)
      × ((later : DateTime)
          → later ≤ℤ nanos (expires_at +ℤ pos 298)
          → expired e.chrono stored later ≡ false)

  call-SpentIn :
      (c : Call) (s : S) → InTime jti expires_at c → SpentIn s → SpentIn (call e c s).1.api
  call-SpentIn c s (early, _) (stored, held, fresh) = (
    stored,
    use_once-Keeps e view laws (lease_name e.sha256 jti) stored c.now (fresh c.now early) c.jti
        c.expires_at (replica e c s) held,
    fresh,
  )

  call-Fails :
      (c : Call) (s : S)
      → InTime jti expires_at c
      → SpentIn s
      → c.jti ≡ jti
      → is_ok (call e c s).0 ≡ false
  call-Fails c s (early, _) (stored, held, fresh) same = elim (Result-cases (call e c s).0) [
    | inr (x, failed) ↦ rw failed refl
    | inl (_, passed) ↦ absurd (
        use_once-Fails e view laws c.now c.jti c.expires_at stored (fresh c.now early)
          (replica e c s)
          (subst (λ j. view s (lease_name e.sha256 j) ≡ some stored) (sym same) held) tt passed)
  ]

  successes-zero :
      (calls : List Call) (s : S)
      → All (InTime jti expires_at) calls
      → SpentIn s
      → successes e jti calls s ≡ 0
  unfolding successes
  successes-zero [] s h spent = refl
  successes-zero (c ∷ calls) s (h, hs) spent =
      let rest = successes-zero calls (call e c s).1.api hs (call-SpentIn c s h spent) in
      elim (Bool-cases (c.jti == jti)) [
        | inr other ↦ rw (other, rest) refl
        | inl same ↦ rw (same, call-Fails c s h spent ((eq_iff c.jti jti).0 same), rest) refl
      ]

  -- Whatever replicas make the calls and in whatever order, at most one call for an assertion
  -- succeeds, as long as none comes later than 298 seconds after the assertion's expiry and all
  -- calls for the assertion give that expiry.
  pub successes-le_one :
      ChronoLaws e.chrono
      → (calls : List Call) (s : S) → All (InTime jti expires_at) calls
      → successes e jti calls s ≤ 1
  unfolding successes
  successes-le_one clock [] s h = omega arith
  successes-le_one clock (c ∷ calls) s (h, hs) = elim (Bool-cases (c.jti == jti)) [
    | inr other ↦ rw other (omega (arith, successes-le_one clock calls (call e c s).1.api hs))
    | inl same ↦ elim (Result-cases (call e c s).0) [
      | inr (x, failed) ↦
          rw (same, failed) (omega (arith, successes-le_one clock calls (call e c s).1.api hs))
      | inl (_, passed) ↦
          rw
            (
              same,
              passed,
              successes-zero calls (call e c s).1.api hs
                  (now_spent ((eq_iff c.jti jti).0 same) passed),
            )
            (omega arith)
    ]
  ]
    where
      expiry : c.jti ≡ jti → (c.jti ≢ jti) ⊎ (c.expires_at ≡ expires_at) → c.expires_at ≡ expires_at
      expiry same (inl other) = absurd (other same)
      expiry same (inr given) = given

      now_spent : c.jti ≡ jti → (call e c s).0 ≡ ok tt → SpentIn (call e c s).1.api
      now_spent same passed =
          let (stored, held, fresh) =
            use_once-Spent e view laws clock c.now c.jti c.expires_at (replica e c s) passed in
          (
            stored,
            subst (λ j. view (call e c s).1.api (lease_name e.sha256 j) ≡ some stored) same held,
            subst
                (λ x.
                  (later : DateTime)
                  → later ≤ℤ nanos (x +ℤ pos 298)
                  → expired e.chrono stored later ≡ false)
                (expiry same h.1) fresh,
          )
