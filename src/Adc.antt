-- ===== src/Adc.antt =====
-- The ADC protocol: package adc and adc/types.
pub mod Sid
pub mod Escape
pub mod Feature
pub mod ModFeatures
pub mod Packet
mod Tests
