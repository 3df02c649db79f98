-- ===== src/Lib.antt =====
-- github-oidc-exchange: a service that exchanges assertions of GitHub Actions, of Kubernetes
-- workloads and of other OIDC providers for short-lived tokens of its own. An exchange verifies the
-- assertion, asks a policy for the identity, spends the assertion in a replay ledger that is kept as
-- Kubernetes Lease records, and signs the claims with the current key of a keyring.
--
-- Parts and files (paths from the repository's root):
--   src/lib.rs       Contract: the names of contracts and document versions.
--   src/policy.rs    Policy: documents. Policy.Checks: the checks of values. Policy.Validate: load
--                    and validate. Policy.Authorize: authorize. Policy.Unambiguous,
--                    Policy.Admission, Policy.Vouched and Policy.Actors: proofs.
--   src/replay.rs    Replay: records, and the parameters for chrono and the Lease API. Replay.Record:
--                    Lease::new, retained_until, expired. Replay.Ledger: the requests,
--                    reclaim_expired, cleanup_one, use_once, check_ready. Replay.Retention,
--                    Replay.Store, Replay.Writes, Replay.Cleanup, Replay.Once, Replay.Used, Replay.Kept,
--                    Replay.Runs (calls by several replicas), Replay.Sweeps and Replay.Decides:
--                    proofs.
--                    Exchange: the trait ReplayLedger, and what the services share.
--   src/keys.rs      Keys: both keyrings, as one model over the key type. Keys.Windows: proofs.
--   src/github.rs    Github: the claims of an assertion. Github.Checks and Github.Accept: their
--                    checks. Github.Attempt: numeric_string. Github.Cache: the key cache and its
--                    refreshes. Github.Key: key. Github.Verify: verify. Github.RoundTrip,
--                    Github.Provenance, Github.Accepted, Github.Fresh, Github.Published,
--                    Github.Refreshes and Github.Verified: proofs.
--   src/service.rs   Service: the service's data. Service.Exchange: exchange. Digest: the hash
--                    prefixes. Service.Replicas: the service as src/main.rs puts it together, served
--                    by several replicas. Service.Issued and Service.Once: proofs.
--   src/workload.rs  Workload: data. Workload.Identities: the policy. Workload.Review: TokenReview.
--                    Workload.Service: exchange. Workload.Unique, Workload.Accepted,
--                    Workload.Issue and Workload.Issued: proofs.
--   src/oidc.rs      Oidc: data. Oidc.Policy, Oidc.Claims, Oidc.Identifiers, Oidc.Cache (the key cache
--                    and its refreshes), Oidc.Verify (the verifiers' making and verify),
--                    Oidc.Service. Oidc.Bindings, Oidc.Accepted, Oidc.Fresh, Oidc.Configured,
--                    Oidc.Verified and Oidc.Issued: proofs.
--   src/browser_hop1.rs
--                    Browser: data and the checks of values. Browser.Verify: load and verify.
--                    Browser.Service: exchange. Browser.Accepted and Browser.Issued: proofs.
--   src/config.rs    Config: data. Config.Values: the checks of values. Config.FromEnv: from_env.
--                    Config.Parts and Config.Valid: proofs.
--   src/http.rs      Http: requests and responses. Http.Exchanges, Http.Ready and Http.Documents: the
--                    handlers. Http.Answers: proofs.
--   src/bin/keyring-tool.rs
--                    KeyringTool: files and the command line. KeyringTool.Files: validate_private and
--                    write_private. KeyringTool.Run: the commands. KeyringTool.Safe and
--                    KeyringTool.Runs: proofs.
-- Prelude, Text, Sort and Effects hold what the parts share; Tests holds concrete inputs.
--
-- Conventions. A text is the list of its code points, and its bytes are its UTF-8 encoding. An i64 is
-- an integer whose checked operations give none out of range; a u64 is a number whose additions wrap
-- at 2 ^ 64. A HashMap is an association list, a HashSet a list. Code that reads and writes state is
-- a function from the state to a result and the new state, and an error keeps the state that it was
-- met in. A service's state is its counters beside the world: everything outside the process. The
-- clock, the token identifier and the answers of other processes are arguments.
--
-- Bounds. The loops over the attempts of reclaim_expired and over the pages of cleanup_one count
-- down from 2, which is the number of rounds that the source makes; no other loop is on fuel but the
-- printing of decimals, which is given one step more than the number.
--
-- Parameters. SHA-256, the parsers of URLs and addresses, the environment, the decoding of keys, the
-- encoding and decoding of tokens, the fetches of key documents, chrono, the Kubernetes API
-- and the system calls of the keyring tool are arguments. ChronoLaws and StoreLaws say what the
-- theorems of the ledger rely on, and StoreAnswers what the API answers while it is up, for
-- Replay.Decides alone: one call runs from its start to its end with no other replica's request in
-- between, as StoreLaws has it. A run of several replicas is a list of calls, or of exchanges, one
-- after the other, each with its own reading
-- of the clock and its own state of the replica.
--
-- Not modelled: the texts of the metrics and the routing (src/http.rs), which are formatting and the
-- framework's, the refresh loops and the construction of HTTP clients, the rest of src/main.rs, which
-- is mostly I/O, log events and the duration histogram.
mod Prelude
pub mod Text
pub mod Sort
pub mod Contract
pub mod Github
pub mod Http
pub mod Digest
pub mod Effects
pub mod Policy
pub mod Replay
pub mod Exchange
pub mod Keys
pub mod KeyringTool
pub mod Service
pub mod Workload
pub mod Oidc
pub mod Browser
pub mod Config
mod Tests
