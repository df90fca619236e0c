-- ===== src/Hub/Nmdc.antt =====
-- The side of the hub that speaks NMDC: hub/hub_nmdc.go.
pub mod Line
pub mod Login
pub mod Handshake
pub mod Search
pub mod Chat
pub mod Handle
pub mod Serve
pub mod Runs
mod Tests
