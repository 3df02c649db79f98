-- ===== src/Replay/Retention.antt =====
-- src/replay.rs: how long the record of a used assertion stands.
use mathlib.Core.Path.{subst₂}
use github_oidc_exchange.Prelude.{
  ◌*◌, ◌≡◌, refl, sym, ap, subst, ◌∙◌, inl, inr, true, some, ok, arith, Option-cases,
}
use github_oidc_exchange.Prelude.Int.{
  ℤ, pos, negsuc, pos_part, neg_part, ◌+ℤ◌, ◌-ℤ◌, ◌≤ℤ◌, ◌<ℤ◌, +ℤ_parts, -ℤ_parts, checked_add,
  checked_sub, checked_add-eq-some, checked_sub-eq-some,
}
use github_oidc_exchange.Text.{Text}
use github_oidc_exchange.Replay.{DateTime, nanos, Chrono, ChronoLaws, Lease}
use github_oidc_exchange.Replay.Record.{retained_until, new_lease, expired}

pub nanos_parts :
    (s : ℤ)
    → (pos_part (nanos s) ≡ pos_part s * 1000000000)
      × (neg_part (nanos s) ≡ neg_part s * 1000000000)
unfolding nanos
nanos_parts (pos n) = (refl, refl)
nanos_parts (negsuc n) = (refl, omega arith)

ruleset clock_laws = (arith, +ℤ_parts, -ℤ_parts, nanos_parts)

retained_until-parts :
    (chrono : Chrono) (expires_at now : ℤ) {t : DateTime}
    → retained_until chrono expires_at now ≡ ok t
    → (retained : ℤ) × (duration : ℤ) × (checked_add expires_at (pos 300) ≡ some retained)
      × (checked_sub retained now ≡ some duration)
      × (pos 0 <ℤ duration)
      × (duration ≤ℤ pos 960)
      × (chrono.from_timestamp retained ≡ some t)
unfolding retained_until
retained_until-parts chrono expires_at now h =
    elim (Option-cases (checked_add expires_at (pos 300))) [
      | inl overflow ↦ absurd (ground arith)
      | inr (retained, e) ↦ elim (Option-cases (checked_sub retained now)) [
        | inl overflow ↦ absurd (ground arith)
        | inr (duration, f) ↦ (retained, duration, e, f, ground arith, ground arith, ground arith)
      ]
    ]

-- The record of an assertion is to stand until 300 seconds after its expiry, and for 1 to 960
-- seconds from now.
pub retained_until-bounds :
    (chrono : Chrono)
    → ChronoLaws chrono
    → (expires_at now : ℤ) {t : DateTime} → retained_until chrono expires_at now ≡ ok t
    → (t ≡ nanos (expires_at +ℤ pos 300))
      × (now <ℤ expires_at +ℤ pos 300)
      × (expires_at +ℤ pos 300 ≤ℤ now +ℤ pos 960)
retained_until-bounds chrono laws expires_at now {t} h =
    let (retained, duration, e, f, positive, short, exact) =
      retained_until-parts chrono expires_at now h in
    let sum = checked_add-eq-some expires_at (pos 300) e in
    let difference = checked_sub-eq-some retained now f in
    (
      laws.from_timestamp_exact retained exact ∙ ap nanos sum,
      omega (
        clock_laws,
        ap pos_part sum,
        ap neg_part sum,
        ap pos_part difference,
        ap neg_part difference,
      ),
      omega (
        clock_laws,
        ap pos_part sum,
        ap neg_part sum,
        ap pos_part difference,
        ap neg_part difference,
      ),
    )

new_lease-parts :
    (chrono : Chrono) (name : Text) (retained now : DateTime) {lease : Lease}
    → new_lease chrono name retained now ≡ ok lease
    → (lease.spec.lease_duration_seconds ≡ chrono.num_seconds_since retained now)
      × (lease.spec.renew_time ≡ chrono.to_rfc3339_micros now)
unfolding new_lease
new_lease-parts chrono name retained now h = ground arith

expired-parts :
    (chrono : Chrono) (lease : Lease) (later : DateTime)
    → expired chrono lease later ≡ true
    → (renewed : DateTime) × (chrono.parse_from_rfc3339 lease.spec.renew_time ≡ some renewed)
      × (pos 0 <ℤ lease.spec.lease_duration_seconds)
      × (renewed +ℤ nanos lease.spec.lease_duration_seconds ≤ℤ later)
unfolding expired
expired-parts chrono lease later h =
    elim (Option-cases (chrono.parse_from_rfc3339 lease.spec.renew_time)) [
      | inl unreadable ↦ absurd (ground arith)
      | inr (renewed, e) ↦ (renewed, e, ground arith, ground arith)
    ]

not_yet_retained :
    (expires_at ts now : ℤ)
    → ts <ℤ expires_at +ℤ pos 300
    → now <ℤ nanos ts +ℤ nanos (pos 1)
    → now ≤ℤ nanos (expires_at +ℤ pos 300)
not_yet_retained expires_at ts now future floor = omega clock_laws

late_enough :
    (expires_at now later read seconds : ℤ)
    → nanos (expires_at +ℤ pos 300) -ℤ now <ℤ nanos seconds +ℤ nanos (pos 1)
    → now <ℤ read +ℤ pos 1000
    → pos 0 <ℤ seconds
    → read +ℤ nanos seconds ≤ℤ later
    → (nanos (expires_at +ℤ pos 298) <ℤ later) × (now <ℤ later)
late_enough expires_at now later read seconds trunc late positive reached =
    (omega clock_laws, omega clock_laws)

-- A record made for an assertion is not taken for expired, by whatever reading of the clock, before
-- 298 seconds after the assertion's expiry, nor at the time of its making.
pub expired-after_retention :
    (chrono : Chrono) (expires_at : ℤ) (name : Text) (now later retained : DateTime) (lease : Lease)
    → ChronoLaws chrono
    → retained_until chrono expires_at (chrono.timestamp now) ≡ ok retained
    → new_lease chrono name retained now ≡ ok lease
    → expired chrono lease later ≡ true
    → (nanos (expires_at +ℤ pos 298) <ℤ later) × (now <ℤ later)
expired-after_retention chrono expires_at name now later retained lease laws made written over =
    let (exact, future, _) =
      retained_until-bounds chrono laws expires_at (chrono.timestamp now) made in
    let (duration, renew) = new_lease-parts chrono name retained now written in
    let (renewed, parsed, positive, reached) = expired-parts chrono lease later over in
    let (read, read_back, early, late) = laws.rfc3339_round_trip now in
    let ahead =
      not_yet_retained expires_at (chrono.timestamp now) now future (laws.timestamp_floor now).1 in
    let (_, trunc) =
      laws.num_seconds_trunc retained now (subst (λ t. now ≤ℤ t) (sym exact) ahead) in
    let same : read ≡ renewed = same_reading renew parsed read_back in
    late_enough expires_at now later renewed lease.spec.lease_duration_seconds
      (subst₂ (λ t d. t -ℤ now <ℤ nanos d +ℤ nanos (pos 1)) exact (sym duration) trunc)
      (subst (λ t. now <ℤ t +ℤ pos 1000) same late) positive reached
  where
    same_reading :
        {renew_time written_time : Text} {read renewed : DateTime}
        → renew_time ≡ written_time
        → chrono.parse_from_rfc3339 renew_time ≡ some renewed
        → chrono.parse_from_rfc3339 written_time ≡ some read
        → read ≡ renewed
    same_reading e f g = cc
