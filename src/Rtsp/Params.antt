-- ===== src/Rtsp/Params.antt =====
-- src/rtsp/sdp.rs: the codec parameters of a stream. A text is its list of characters.
use buddy3d_proxy.Prelude.{ℕ, List}

pub record H264Params : Type 0 where
  pub profile_level_id : List ℕ
  pub sprop_parameter_sets : List ℕ
  pub packetization_mode : ℕ
  pub payload_type : ℕ
