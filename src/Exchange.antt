-- ===== src/Exchange.antt =====
-- What the four exchange services share: the trait `ReplayLedger` of src/replay.rs, the readings that
-- a request takes from its surroundings, and the state that it writes.
use github_oidc_exchange.Prelude.{ℕ, Result, ok, err}
use github_oidc_exchange.Effects.{M}
use github_oidc_exchange.Prelude.Int.{ℤ}
use github_oidc_exchange.Text.{Text}
use github_oidc_exchange.Replay.{ReplayError, DateTime}

-- The trait, over the state `W` of everything outside the process.
pub record ReplayLedger (W : Type 0) : Type 0 where
  pub use_once : Text → ℤ → W → Result (Unit {0}) ReplayError × W

-- `get_current_timestamp()`, the `Utc::now()` of `sign`, and `Uuid::new_v4()`.
pub record Readings : Type 0 where
  pub now : ℕ
  pub signed_at : DateTime
  pub token_id : Text

-- A service's counters beside the world.
pub record State (Metrics W : Type 0) : Type 0 where
  pub metrics : Metrics
  pub world : W

module _ {Metrics W : Type 0} where
  -- A call that reads and writes the world alone.
  abbrev pub on_world : {A E : Type 0} → (W → Result A E × W) → M (State Metrics W) E A
  on_world call s = ((call s.world).0, record s { world = (call s.world).1 })

  abbrev pub count : {E : Type 0} → (Metrics → Metrics) → M (State Metrics W) E (Unit {0})
  count f s = (ok tt, record s { metrics = f s.metrics })

  -- A counter and an error: what `deny` and `fail` do beside logging.
  abbrev pub refuse : {A E : Type 0} → (Metrics → Metrics) → E → M (State Metrics W) E A
  refuse f e s = (err e, record s { metrics = f s.metrics })
