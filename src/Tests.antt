-- ===== src/Tests.antt =====
-- Concrete inputs for the properties of src/.
pub mod Store
mod Replay
mod Answers
pub mod Policy
pub mod Exchanges
pub mod Workload
pub mod Oidc
pub mod Github
pub mod Browser
mod Config
mod Replicas
mod Http
mod KeyringTool
