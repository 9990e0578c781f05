-- ===== src/Mqtt.antt =====
-- The bridge to MQTT.
pub mod State
pub mod Commands
pub mod Transient
pub mod Discovery
pub mod Hub
