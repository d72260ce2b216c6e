-- ===== src/Core.antt =====
-- packages/core: the adapters, the capability contract and the sessions.
pub mod Shell
pub mod Exec
pub mod Result
pub mod Types
pub mod Capabilities
pub mod Debian
pub mod Os
pub mod Registry
pub mod Log
pub mod Elevation
pub mod Session
pub mod Audit
