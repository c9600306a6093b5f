-- ===== src/MediaMtx.antt =====
-- internal/mediamtx/config.go: the configuration of a MediaMTX server for the cameras.
pub mod Config
pub mod Generator
pub mod Sync
pub mod Api
pub mod Shell
pub mod Applying
pub mod Rebuilding
pub mod Retention
