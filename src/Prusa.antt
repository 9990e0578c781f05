-- ===== src/Prusa.antt =====
-- The client towards the cloud of the camera.
pub mod Commands
pub mod Api
pub mod Signaling
