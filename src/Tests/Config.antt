-- ===== src/Tests/Config.antt =====
-- src/config.rs at concrete inputs.
use github_oidc_exchange.Prelude.{[], ◌∷◌, Option, some, none, Holds, nat_eq, list_eq, get}
use github_oidc_exchange.Text.{Text, text}
use github_oidc_exchange.Config.{Process, Var}
use github_oidc_exchange.Config.FromEnv.{from_env}
use github_oidc_exchange.Config.Valid.{Valid, from_env-Valid}

abbrev found : Option Text → Var
found none = Var.not_present
found (some value) = Var.present value

-- Addresses are their texts, and every text is a URL without more than a host.
abbrev process : Process Text
process = record {
  var = λ name. found (
      get
        ((text "ISSUER_URL", text "https://i/")
          ∷ (text "OUTPUT_AUDIENCE", text "steward-task-api")
          ∷ (text "GITHUB_EXCHANGE_AUDIENCE", text "a")
          ∷ (text "POLICY_FILE", text "p")
          ∷ (text "KEYRING_FILE", text "k")
          ∷ (text "REPLAY_LEASE_NAMESPACE", text "n")
          ∷ [])
        name);
  parse_url = λ url. some (record {
    scheme = text "https";
    host_str = some url;
    port_or_known_default = some 443;
    username = [];
    password = none;
    query = none;
    fragment = none;
  });
  parse_address = λ address. some address;
}

from_env-Valid_example : Holds (Valid process) (from_env process)
from_env-Valid_example = from_env-Valid process
