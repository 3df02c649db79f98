-- ===== src/Tests/Exchanges.antt =====
-- src/keys.rs, src/service.rs, src/workload.rs and src/oidc.rs at concrete inputs.
use github_oidc_exchange.Prelude.{
  ℕ, suc, ◌≡◌, refl, true, [], ◌∷◌, ◌++◌, Option, some, ok, get, put, contains, list_beq, nat_eq,
  list_eq, ok_or,
}
use github_oidc_exchange.Prelude.Int.{pos}
use github_oidc_exchange.Text.{Text, text}
use github_oidc_exchange.Contract.{keyring_version}
use github_oidc_exchange.Github.{GitHubClaims}
use github_oidc_exchange.Policy.{Identity}
use github_oidc_exchange.Policy.Authorize.{authorize}
use github_oidc_exchange.Exchange.{Readings, State, ReplayLedger}
use github_oidc_exchange.Keys.{KeyError, KeyRingFile, KeyRing, in_window, load_keys, load, sign_at}
use github_oidc_exchange.Keys.Windows.{load-sign_at}
use github_oidc_exchange.Service.{Metrics, ExchangeService}
use github_oidc_exchange.Service.Exchange.{exchange, output_claims}
use github_oidc_exchange.Service.Issued.{Counted, exchange-Counted, exchange-Issued}
use github_oidc_exchange.Tests.Policy.{policy, claims, admitted}

-- One key, valid from 0 to 2000.
abbrev pub specs : KeyRingFile
specs = record {
  version = keyring_version;
  current_kid = text "k";
  keys =
      record { kid = text "k"; material = text "s"; not_before = pos 0; not_after = pos 2000 } ∷ [];
}

abbrev pub ring : KeyRing Text
ring = record {
  current_kid = text "k";
  current_not_before = pos 0;
  current_not_after = pos 2000;
  readiness_threshold = 5;
  keys = (text "k", text "s") ∷ [];
}

abbrev pub sign : {C : Type 0} → Text → Text → C → Option Text
sign kid key _ = some (kid ++ key)

loaded : load "" (λ material. ok material) keyring_version (ok specs) (pos 1000) 5 ≡ ok ring
unfolding load load_keys list_beq contains put get
loaded = refl

load-sign_at_example :
    (key : Text) × (get ring.keys ring.current_kid ≡ some key)
    × (in_window ring.current_not_before ring.current_not_after (pos 1000) ≡ true)
    × (sign_at {C = ℕ} "" sign ring 7 (pos 1000)
        ≡ ok_or (sign {C = ℕ} ring.current_kid key 7) KeyError.signing)
load-sign_at_example =
    load-sign_at "" (λ material. ok material) keyring_version (ok specs) (pos 1000) 5 ring sign 7
      loaded

-- The world counts the calls, and the ledger refuses none.
abbrev pub ledger : ReplayLedger ℕ
ledger = record { use_once = λ jti expires_at w. (ok tt, suc w) }

abbrev pub readings : Readings
readings = record { now = 500; signed_at = pos 1000; token_id = text "id" }

abbrev service : ExchangeService ℕ Text
service = record {
  verify = λ assertion w. (ok claims, suc w);
  policy = policy;
  ledger = ledger;
  keys = ring;
  issuer = text "i";
  output_audience = text "o";
  token_ttl = 60;
  encode = sign;
}

abbrev start : State Metrics ℕ
start = record {
  metrics = record { requests = 0; issued = 0; denied = 0; replayed = 0; errors = 0 };
  world = 0;
}

issues : (exchange service readings (text "t") start).0 ≡ ok (text "ks")
unfolding exchange sign_at get list_beq
issues = rw admitted refl

exchange-Counted_example :
    Counted service readings
      (text "t")
      start
      (exchange service readings (text "t") start).0
      (exchange service readings (text "t") start).1.metrics
exchange-Counted_example = exchange-Counted service readings (text "t") start

exchange-Issued_example :
    (claims : GitHubClaims) × (identity : Identity) × (key : Text) × ((service.verify
        (text "t")
        start.world).0
      ≡ ok claims)
    × (authorize service.policy claims ≡ ok identity)
    × (service.ledger.use_once claims.jti claims.exp (service.verify (text "t") start.world).1
        ≡ (ok tt, (exchange service readings (text "t") start).1.world))
    × (in_window service.keys.current_not_before service.keys.current_not_after readings.signed_at
        ≡ true)
    × (get service.keys.keys service.keys.current_kid ≡ some key)
    × (service.encode service.keys.current_kid key (output_claims service readings claims identity)
        ≡ some (text "ks"))
exchange-Issued_example = exchange-Issued service readings (text "t") start issues
