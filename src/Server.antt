-- ===== src/Server.antt =====
-- packages/server: the gateway, its registry of sessions, and the known hosts.
pub mod Manager
pub mod KnownHosts
pub mod Opener
pub mod Gateway
pub mod Terminal
pub mod Static
