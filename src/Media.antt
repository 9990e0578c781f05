-- ===== src/Media.antt =====
-- RTP media: reassembly of H.264 units, and the framing towards RTSP viewers.
pub mod Reassembler
pub mod Interleaved
pub mod RtpHeader
