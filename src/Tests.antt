-- ===== src/Tests.antt =====
-- The theorems at concrete inputs, and runs of the models.
mod Core
mod Server
mod Gateway
mod Web
mod Client
mod Files
mod Viewer
mod Apps
mod Desktop
