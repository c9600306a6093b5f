-- ===== src/Uplink.antt =====
-- internal/uplink
pub mod Env
pub mod Request
pub mod Path
pub mod Srt
pub mod Container
pub mod Manager
