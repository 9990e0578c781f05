-- ===== src/Rtsp/Forward/Examples.antt =====
-- src/rtsp/server.rs: a packet between a keepalive and the end of the client.
use buddy3d_proxy.Prelude.{ℕ, ◌≡◌, some, false, true, List, [], ◌∷◌, length, arith}
use buddy3d_proxy.Media.RtpHeader.{Header, header_to_bytes, push_csrc}
use buddy3d_proxy.Media.Interleaved.Laws.{read_frames}
use buddy3d_proxy.Rtsp.Forward.{ForwardEvent, packet, lagged, inbound, forward_rtp}
use buddy3d_proxy.Rtsp.Forward.Received.{packets, read_frames-forward_rtp}

abbrev header : Header
header = record {
  version = 2;
  padding = false;
  extension = false;
  marker = true;
  payload_type = 96;
  sequence_number = 7;
  timestamp = 9;
  ssrc = 11;
  csrc = [];
  extension_profile = 0;
  extensions = [];
}

abbrev events : List ForwardEvent
events = inbound 8 ∷ packet header (101 ∷ 102 ∷ []) ∷ lagged 3 ∷ inbound 0 ∷ packet header [] ∷ []

read_frames-forward_rtp_example :
    (bytes : List ℕ) × (forward_rtp 2 [] events ≡ some bytes)
    × (read_frames (length bytes) bytes ≡ some (packets 2 events))
unfolding header_to_bytes push_csrc
read_frames-forward_rtp_example = read_frames-forward_rtp 2 events (omega arith)
