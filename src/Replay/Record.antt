-- ===== src/Replay/Record.antt =====
-- src/replay.rs: `Lease::new`, `lease_name`, `retained_until`, `expired` and their helpers.
use github_oidc_exchange.Prelude.{
  ℕ, ◌^◌, ◌-◌, Bool, false, not, ◌&&◌, ◌||◌, List, [], ◌∷◌, ◌++◌, Option, none, some, Result, ok,
  err, ◌>>=◌, ◌>>◌, refuse_if, ok_or, get, filter, all, is_empty, leb, if◌then◌else◌, ◌==◌, nat_eq,
  list_eq,
}
use github_oidc_exchange.Prelude.Int.{
  ℤ, pos, pos_part, neg_part, ◌+ℤ◌, checked_add, checked_sub, leb_ℤ, ltb_ℤ,
}
use github_oidc_exchange.Text.{
  Text, text, len, bytes, starts_with, ends_with, is_ascii_lowercase, is_ascii_digit,
}
use github_oidc_exchange.Digest.{hex, take}
use github_oidc_exchange.Replay.{ReplayError, unavailable, DateTime, nanos, Chrono, Lease}

abbrev pub ledger_label : Text
ledger_label = text "github-oidc-exchange.apelogic.io/replay-ledger"

abbrev pub ledger_version : Text
ledger_version = text "v1"

abbrev pub ledger_holder : Text
ledger_holder = text "github-oidc-exchange-replay-ledger"

abbrev pub lease_retention_seconds : ℤ
lease_retention_seconds = pos 300

abbrev pub max_lease_duration_seconds : ℤ
max_lease_duration_seconds = pos 960

unfoldable pub lease_name : (List ℕ → List ℕ) → Text → Text
unfolding hex
lease_name sha256 jti = text "replay-" ++ take 56 (hex (sha256 (bytes jti)))

unfoldable pub owned_ledger_lease : Lease → Bool
owned_ledger_lease lease =
    is_version (get lease.metadata.labels ledger_label)
    && lease.spec.holder_identity == ledger_holder
  where
    is_version : Option Text → Bool
    is_version none = false
    is_version (some value) = value == ledger_version

unfoldable pub valid_dns_label : Text → Bool
valid_dns_label value =
    not (is_empty value)
    && leb (len value) 63
    && not (starts_with (text "-") value)
    && not (ends_with (text "-") value)
    && all (λ byte. is_ascii_lowercase byte || is_ascii_digit byte || byte == b'-') (bytes value)

module _ (chrono : Chrono) where
  unfoldable pub retained_until : ℤ → ℤ → Result DateTime ReplayError
  retained_until expires_at now = do
    retained ← ok_or (checked_add expires_at lease_retention_seconds) unavailable
    lease_duration ← ok_or (checked_sub retained now) unavailable
    refuse_if (leb_ℤ lease_duration (pos 0) || ltb_ℤ max_lease_duration_seconds lease_duration)
        unavailable
    ok_or (chrono.from_timestamp retained) unavailable

  -- `try_into::<i32>`.
  abbrev in_i32 : ℤ → Bool
  in_i32 n = leb (pos_part n) (2 ^ 31 - 1) && leb (neg_part n) (2 ^ 31)

  unfoldable pub new_lease : Text → DateTime → DateTime → Result Lease ReplayError
  new_lease name retained now =
      let seconds : ℤ = chrono.num_seconds_since retained now in
      if in_i32 seconds
      then ok (record {
        api_version = text "coordination.k8s.io/v1";
        kind = text "Lease";
        metadata = record {
          name = name;
          resource_version = none;
          labels = (ledger_label, ledger_version) ∷ [];
        };
        spec = record {
          holder_identity = ledger_holder;
          lease_duration_seconds = seconds;
          acquire_time = chrono.to_rfc3339_micros now;
          renew_time = chrono.to_rfc3339_micros now;
        };
      })
      else err unavailable

  over_at : ℤ → DateTime → Option DateTime → Bool
  over_at seconds now none = false
  over_at seconds now (some renewed_at) = leb_ℤ (renewed_at +ℤ nanos seconds) now

  unfoldable pub expired : Lease → DateTime → Bool
  unfolding over_at
  expired lease now =
      if not (owned_ledger_lease lease) || leb_ℤ lease.spec.lease_duration_seconds (pos 0)
      then false
      else over_at lease.spec.lease_duration_seconds now
          (chrono.parse_from_rfc3339 lease.spec.renew_time)

  unfoldable pub expired_owned_leases : List Lease → DateTime → List Lease
  expired_owned_leases leases now =
      filter (λ lease. owned_ledger_lease lease && expired lease now) leases
