-- ===== src/Tests/Answers.antt =====
-- The Lease API of the tests is up, and `use_once` over it where an expired record stands.
use github_oidc_exchange.Prelude.{
  ℕ, false, ◌≡◌, refl, sym, ap, ◌∙◌, [], ◌∷◌, Option, none, some, ok, nat_eq, list_eq, list_beq,
  get,
}
use github_oidc_exchange.Prelude.Int.{ℤ, pos, ◌+ℤ◌, ◌-ℤ◌, checked_add, checked_sub}
use github_oidc_exchange.Text.{Text, text, bytes, trim}
use github_oidc_exchange.Replay.{DateTime, Lease, nanos}
use github_oidc_exchange.Replay.Record.{
  lease_name, retained_until, new_lease, expired, owned_ledger_lease,
}
use github_oidc_exchange.Replay.Ledger.{Ledger, use_once}
use github_oidc_exchange.Replay.Decides.{StoreAnswers, Versioned, use_once-decided}
use github_oidc_exchange.Tests.Store.{
  Records, calendar, records, here_now, records_laws, whole_seconds, set, name_of, found_body,
}

records_answers : StoreAnswers records here_now
unfolding trim
records_answers = record {
  credential_given = λ s. (text "token", refl, refl);
  item_at = λ name. (b'/' ∷ name, refl);
  post_new = λ token lease s h. rw h refl;
  post_taken = λ token lease l s h. rw h refl;
  get_standing = λ token url name l s at h. ap found_body (ap s (sym (named at)) ∙ h);
  put_standing = λ token url name lease l s at h same. refl;
}
  where
    named : {name url : Text} → some (b'/' ∷ name) ≡ some url → name ≡ name_of url
    named {name} {url} at = ap name_of (same at)
      where
        same : {t : Text} → some t ≡ some url → t ≡ url
        same p = cc

-- A record made at `t` seconds for `seconds`.
abbrev lease_at : Option Text → ℕ → ℤ → Lease
lease_at version t seconds = record {
  api_version = text "coordination.k8s.io/v1";
  kind = text "Lease";
  metadata = record {
    name = text "replay-61";
    resource_version = version;
    labels = (text "github-oidc-exchange.apelogic.io/replay-ledger", text "v1") ∷ [];
  };
  spec = record {
    holder_identity = text "github-oidc-exchange-replay-ledger";
    lease_duration_seconds = seconds;
    acquire_time = 0 ∷ t ∷ [];
    renew_time = 0 ∷ t ∷ [];
  };
}

-- A record of 500 to 1300 seconds.
abbrev aged : Ledger Records
aged = record {
  api =
      set (text "replay-61") (some (lease_at (some (text "7")) 500000000000 (pos 800)))
        (λ name. none);
  cleanup_continue = none;
  readiness = record { checked_at = none; ready = false };
}

-- At 2000 seconds an assertion that is over at 2100.
abbrev later : DateTime
later = pos 2000000000000

kept : retained_until calendar (pos 2100) (calendar.timestamp later) ≡ ok (pos 2400000000000)
unfolding retained_until checked_add checked_sub nanos ◌+ℤ◌ ◌-ℤ◌ whole_seconds
kept = refl

made :
    new_lease calendar (lease_name records.sha256 (text "a")) (pos 2400000000000) later
    ≡ ok (lease_at none 2000000000000 (pos 400))
unfolding lease_name bytes new_lease whole_seconds ◌-ℤ◌ ◌+ℤ◌ checked_sub
made = refl

versioned : Versioned (aged.api (lease_name records.sha256 (text "a")))
unfolding lease_name bytes set list_beq
versioned = (text "7", refl, refl)

use_once-decided_example : (use_once records later (text "a") (pos 2100) aged).0 ≡ ok tt
unfolding lease_name bytes set list_beq expired owned_ledger_lease get nanos ◌+ℤ◌
use_once-decided_example =
    use_once-decided records here_now records_laws records_answers later (text "a") (pos 2100)
      (pos 2400000000000) (lease_at none 2000000000000 (pos 400)) aged kept made versioned
