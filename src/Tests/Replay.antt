-- ===== src/Tests/Replay.antt =====
-- src/replay.rs at concrete inputs.
use github_oidc_exchange.Prelude.{
  ◌≡◌, ◌≢◌, ◌≤◌, refl, inr, All, false, [], ◌∷◌, none, some, ok, arith, nat_eq, list_eq, list_beq,
  get, filter,
}
use github_oidc_exchange.Prelude.Int.{ℤ, pos, ◌+ℤ◌, ◌-ℤ◌, ◌≤ℤ◌, ◌<ℤ◌, checked_add, checked_sub}
use github_oidc_exchange.Text.{Text, text, trim}
use github_oidc_exchange.Replay.{DateTime, nanos, Lease}
use github_oidc_exchange.Replay.Record.{
  retained_until, new_lease, expired, owned_ledger_lease, expired_owned_leases,
}
use github_oidc_exchange.Replay.Ledger.{
  Ledger, create, post, credential, list_leases, list_page, sweep_page, delete_one, cleanup_pages,
  cleanup_one, use_once,
}
use github_oidc_exchange.Replay.Retention.{retained_until-bounds, expired-after_retention}
use github_oidc_exchange.Replay.Cleanup.{Stands, cleanup_one-Stays}
use github_oidc_exchange.Replay.Runs.{Call, InTime, successes, successes-le_one}
use github_oidc_exchange.Replay.Used.{Spent, use_once-Spent, use_once-once}
use github_oidc_exchange.Tests.Store.{
  Records, calendar, calendar_laws, records, here_now, records_laws, whole_seconds, set,
}

-- At 500 seconds an assertion that is over at 1000.
abbrev now : DateTime
now = pos 500000000000

abbrev jti : Text
jti = text "a"

abbrev expires_at : ℤ
expires_at = pos 1000

abbrev empty : Ledger Records
empty = record {
  api = λ name. none;
  cleanup_continue = none;
  readiness = record { checked_at = none; ready = false };
}

retained_until-bounds_example :
    (pos 1300000000000 ≡ nanos (pos 1000 +ℤ pos 300))
    × (pos 500 <ℤ pos 1000 +ℤ pos 300)
    × (pos 1000 +ℤ pos 300 ≤ℤ pos 500 +ℤ pos 960)
unfolding retained_until checked_add checked_sub nanos ◌+ℤ◌ ◌-ℤ◌
retained_until-bounds_example =
    retained_until-bounds calendar calendar_laws (pos 1000) (pos 500) refl

used : (use_once records now jti expires_at empty).0 ≡ ok tt
unfolding use_once retained_until checked_add checked_sub nanos ◌+ℤ◌ ◌-ℤ◌ new_lease create
    credential post trim list_leases list_page cleanup_pages cleanup_one sweep_page delete_one
    whole_seconds expired_owned_leases filter
used = refl

use_once-Spent_example :
    Spent records here_now records_laws jti expires_at (use_once records now jti expires_at empty).1
use_once-Spent_example =
    use_once-Spent records here_now records_laws calendar_laws now jti expires_at empty used

use_once-once_example :
    (use_once records
      (pos 1200000000000)
      jti
      (pos 1100)
      (use_once records now jti expires_at empty).1).0
    ≢ ok tt
unfolding nanos ◌+ℤ◌
use_once-once_example =
    use_once-once records here_now records_laws calendar_laws now (pos 1200000000000) jti expires_at
      (pos 1100) empty (use_once records now jti expires_at empty).1 used refl (omega arith)

-- The record of the assertion, as `use_once` makes it.
abbrev lease : Lease
lease = record {
  api_version = text "coordination.k8s.io/v1";
  kind = text "Lease";
  metadata = record {
    name = text "replay-61";
    resource_version = none;
    labels = (text "github-oidc-exchange.apelogic.io/replay-ledger", text "v1") ∷ [];
  };
  spec = record {
    holder_identity = text "github-oidc-exchange-replay-ledger";
    lease_duration_seconds = pos 800;
    acquire_time = 0 ∷ 500000000000 ∷ [];
    renew_time = 0 ∷ 500000000000 ∷ [];
  };
}

expired-after_retention_example :
    (nanos (pos 1000 +ℤ pos 298) <ℤ pos 1300000000000) × (now <ℤ pos 1300000000000)
unfolding retained_until checked_add checked_sub nanos ◌+ℤ◌ ◌-ℤ◌ new_lease whole_seconds expired
    owned_ledger_lease get list_beq
expired-after_retention_example =
    expired-after_retention calendar (pos 1000) (text "replay-61") now (pos 1300000000000)
      (pos 1300000000000) lease calendar_laws refl refl refl

abbrev one : Ledger Records
one = record empty { api = set (text "replay-61") (some lease) (λ name. none) }

unexpired : expired calendar lease now ≡ false
unfolding expired owned_ledger_lease get list_beq nanos ◌+ℤ◌
unexpired = refl

cleanup_one-Stays_example :
    Stands records here_now records_laws
      (text "replay-61")
      lease
      now
      unexpired
      (cleanup_one records now one).1
unfolding set list_beq
cleanup_one-Stays_example =
    cleanup_one-Stays records here_now records_laws (text "replay-61") lease now unexpired one refl

-- Two replicas make a call each for the same assertion.
abbrev first : Call
first = record {
  now = now;
  jti = jti;
  expires_at = expires_at;
  cleanup_continue = none;
  readiness = record { checked_at = none; ready = false };
}

abbrev second : Call
second = record first { now = pos 1298000000000; cleanup_continue = some (text "t") }

in_time : All (InTime jti expires_at) (first ∷ second ∷ [])
unfolding nanos ◌+ℤ◌
in_time = ((omega arith, inr refl), ((omega arith, inr refl), tt))

successes-le_one_example : successes records jti (first ∷ second ∷ []) (λ name. none) ≤ 1
successes-le_one_example =
    successes-le_one records here_now records_laws jti expires_at calendar_laws
      (first ∷ second ∷ []) (λ name. none) in_time
