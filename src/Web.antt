-- ===== src/Web.antt =====
-- packages/web: the desktop in the browser.
pub mod Paths
pub mod Format
pub mod Mime
pub mod Windows
pub mod I18n
pub mod Client
pub mod Elevation
pub mod Files
pub mod Monitor
pub mod Login
pub mod Viewer
pub mod Pdf
pub mod Bytes
pub mod Stallman
pub mod Documents
pub mod Terminal
pub mod Desktop
