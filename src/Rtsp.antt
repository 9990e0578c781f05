-- ===== src/Rtsp.antt =====
-- The RTSP server towards the viewers.
pub mod Params
pub mod Sdp
pub mod Message
pub mod Session
pub mod Connection
pub mod Forward
