-- ===== src/Prusa/Signaling.antt =====
-- src/prusa/signaling: the connection to the signaling server.
pub mod Json
pub mod Engineio
pub mod Socketio
pub mod Correlator
pub mod Client
pub mod Ice
pub mod Session
