-- ===== src/Hub/Adc.antt =====
-- The side of the hub that speaks ADC: hub/hub_adc.go.
pub mod Line
pub mod Login
pub mod Routing
pub mod Users
pub mod Session
