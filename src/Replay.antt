-- ===== src/Replay.antt =====
-- src/replay.rs: the Kubernetes Lease record of a used assertion, and what the ledger takes from
-- chrono and from the HTTP client.
pub mod Record
pub mod Ledger
pub mod Retention
pub mod Store
pub mod Writes
pub mod Cleanup
pub mod Once
pub mod Used
pub mod Kept
pub mod Runs
pub mod Sweeps
pub mod Decides
use github_oidc_exchange.Prelude.{
  ℕ, ◌+◌, ◌*◌, ◌-◌, ◌≤◌, ◌<◌, ◌≡◌, Bool, true, false, List, Option, none, some, String,
}
use github_oidc_exchange.Prelude.Int.{ℤ, pos, negsuc, ◌+ℤ◌, ◌-ℤ◌, ◌≤ℤ◌, ◌<ℤ◌}
use github_oidc_exchange.Text.{Text, text}

pub data ReplayError : Type 0 where
  replayed unavailable : ReplayError
  configuration : String → ReplayError

-- A `DateTime<Utc>` is its number of nanoseconds since the epoch.
abbrev pub DateTime : Type 0
DateTime = ℤ

-- So many whole seconds, in nanoseconds.
unfoldable pub nanos : ℤ → ℤ
nanos (pos n) = pos (n * 1000000000)
nanos (negsuc n) = negsuc (n * 1000000000 + 999999999)

-- The functions of chrono that the ledger calls.
pub record Chrono : Type 0 where
  pub from_timestamp : ℤ → Option DateTime
  pub timestamp : DateTime → ℤ
  pub num_seconds_since : DateTime → DateTime → ℤ
  pub to_rfc3339_micros : DateTime → Text
  pub parse_from_rfc3339 : Text → Option DateTime

-- What chrono documents of them: whole seconds round down, a difference rounds towards zero, and a
-- text with microseconds is read back less than a microsecond early.
pub record ChronoLaws (c : Chrono) : Type 0 where
  pub from_timestamp_exact : (s : ℤ) {t : DateTime} → c.from_timestamp s ≡ some t → t ≡ nanos s
  pub timestamp_floor :
      (t : DateTime) → (nanos (c.timestamp t) ≤ℤ t) × (t <ℤ nanos (c.timestamp t) +ℤ nanos (pos 1))
  pub num_seconds_trunc :
      (t u : DateTime)
      → u ≤ℤ t
      → (nanos (c.num_seconds_since t u) ≤ℤ t -ℤ u)
        × (t -ℤ u <ℤ nanos (c.num_seconds_since t u) +ℤ nanos (pos 1))
  pub rfc3339_round_trip :
      (t : DateTime)
      → (u : DateTime) × (c.parse_from_rfc3339 (c.to_rfc3339_micros t) ≡ some u)
        × (u ≤ℤ t)
        × (t <ℤ u +ℤ pos 1000)

pub record LeaseMetadata : Type 0 where
  pub name : Text
  pub resource_version : Option Text
  pub labels : List (Text × Text)

pub record LeaseSpec : Type 0 where
  pub holder_identity : Text
  pub lease_duration_seconds : ℤ
  pub acquire_time : Text
  pub renew_time : Text

pub record Lease : Type 0 where
  pub api_version : Text
  pub kind : Text
  pub metadata : LeaseMetadata
  pub spec : LeaseSpec

pub record LeaseList : Type 0 where
  pub items : List Lease
  pub continue_token : Text

-- The Kubernetes Lease API as the client sees it, over a state of its own. An answer is `none` where
-- the request fails to be sent, or its HTTP status; a body is `none` where it cannot be decoded.
pub record LeaseApi (S : Type 0) : Type 0 where
  pub credential : S → Option Text × S
  pub item_url : Text → Option Text
  pub post : Text → Lease → S → Option ℕ × S
  pub get : Text → Text → S → Option (ℕ × Option Lease) × S
  pub put : Text → Text → Lease → S → Option ℕ × S
  pub list : Text → Option Text → S → Option (ℕ × Option LeaseList) × S
  pub delete : Text → Text → Text → S → Option ℕ × S
