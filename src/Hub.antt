-- ===== src/Hub.antt =====
-- The hub: package hub.
pub mod ChatLog
pub mod Profiles
pub mod Bans
pub mod Rooms
pub mod Users
pub mod Database
pub mod Search
pub mod Commands
pub mod Chat
pub mod Serve
pub mod Bots
pub mod Adc
pub mod Peers
pub mod Config
pub mod Nmdc
