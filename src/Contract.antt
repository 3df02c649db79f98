-- ===== src/Contract.antt =====
-- src/lib.rs: the names of the contracts and of the document versions.
use github_oidc_exchange.Text.{Text, text}

abbrev pub github_issuer : Text
github_issuer = text "https://token.actions.githubusercontent.com"

abbrev pub policy_version : Text
policy_version = text "github-oidc-exchange.apelogic.io/v5"

abbrev pub source_auth_policy_version : Text
source_auth_policy_version = text "github-oidc-exchange.apelogic.io/v6"

abbrev pub keyring_version : Text
keyring_version = text "github-oidc-exchange.apelogic.io/keyring-v1"

abbrev pub rsa_keyring_version : Text
rsa_keyring_version = text "github-oidc-exchange.apelogic.io/rsa-keyring-v1"

abbrev pub workload_policy_version : Text
workload_policy_version = text "github-oidc-exchange.apelogic.io/workload-policy-v1"

abbrev pub identity_contract_v2 : Text
identity_contract_v2 = text "steward-task-v2"

abbrev pub source_auth_identity_contract : Text
source_auth_identity_contract = text "steward-task-v3"

abbrev pub source_provenance_contract : Text
source_provenance_contract = text "steward.source-provenance/v1"

abbrev pub workload_identity_contract : Text
workload_identity_contract = text "openshell-workload-v1"

abbrev pub identity_browser_hop1_contract : Text
identity_browser_hop1_contract = text "steward-browser-mcp-hop1-v1"
