-- ===== src/Uplink/Srt.antt =====
-- internal/uplink/srt.go: the SRT addresses at which an uplink may reach the central server.
pub mod Options
pub mod Query
pub mod Host
pub mod Candidates
