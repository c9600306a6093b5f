-- ===== src/Tests.antt =====
-- Tests of the definitions and instances of the theorems.
mod Fixtures
mod Text
mod Times
mod Uplinks
mod Addresses
mod Supervision
mod Servers
mod Cameras
mod Faces
mod Routing
