-- ===== src/Uplink/Container.antt =====
-- internal/uplink/container/manager.go: the containers that carry uplinks.
pub mod Args
pub mod Logs
pub mod Names
pub mod Docker
pub mod Start
pub mod Interface
