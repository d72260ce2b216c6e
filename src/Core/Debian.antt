-- ===== src/Core/Debian.antt =====
-- packages/core/src/adapters/debian.ts: the adapter for Debian, Ubuntu and Mint. The parsers stand in
-- the modules below, the commands and the class in `Adapter`.
pub mod Files
pub mod Sections
pub mod Processes
pub mod Services
pub mod Adapter
