-- ===== src/Rtsp/Connection/Examples.antt =====
-- src/rtsp/server.rs: a connection that sets up and plays in two pieces, and the theorems on it.
use buddy3d_proxy.Prelude.{◌≡◌, refl, true, none, some, [], ◌∷◌}
use buddy3d_proxy.Prelude.Text.{Text, codes}
use buddy3d_proxy.Rtsp.Connection.{
  streaming, Source, new, receive, receive_all, receive_reads, default_params, session_name,
}
use buddy3d_proxy.Rtsp.Connection.Chunks.{joined, reads, receive_all-reads}
use buddy3d_proxy.Rtsp.Connection.Subscribed.{IsServed}
use buddy3d_proxy.Rtsp.Connection.Reads.{receive_reads-IsServed}

abbrev source : Source
source = record {
  camera_name = codes "Cam";
  rtsp_path = codes "cam";
  session_id = codes "BUDDY3D-0";
  subscribe = some default_params;
  takes = λ written. true;
}

-- A SETUP, cut inside its last header line, and a PLAY.
abbrev first_bytes : Text
first_bytes =
    codes
      "ETUP rtsp://h/cam/streamid=0 RTSP/1.0\r\nCSeq: 1\r\nTransport: RTP/AVP/TCP;unicast;interl"

abbrev second_bytes : Text
second_bytes = codes "aved=4-5\r\n\r\nPLAY rtsp://h/cam RTSP/1.0\r\nCSeq: 2\r\n\r\n"

first_session_name : session_name 10 ≡ codes "BUDDY3D-10"
unfolding session_name
first_session_name = refl

plays_in_two_reads :
    (receive_all source ([], new) ((b'S' ∷ first_bytes) ∷ (b'e' ∷ second_bytes) ∷ [])).1.flow
    ≡ streaming 4
unfolding receive_all new
plays_in_two_reads = refl

receive_all-reads_example :
    receive_all source ([], new) (reads ((b'S', first_bytes) ∷ (b'e', second_bytes) ∷ []))
    ≡ receive source ([], new) (joined ((b'S', first_bytes) ∷ (b'e', second_bytes) ∷ []))
receive_all-reads_example =
    receive_all-reads source [] new b'S' first_bytes ((b'e', second_bytes) ∷ [])

-- Behind the reads the socket fails, which a task that forwards does not see there.
receive_reads-IsServed_example :
    IsServed default_params
      (receive_reads source
        ([], new)
        (some (b'S' ∷ first_bytes) ∷ some (b'e' ∷ second_bytes) ∷ none ∷ [])).1
receive_reads-IsServed_example =
    receive_reads-IsServed default_params source
      (some (b'S' ∷ first_bytes) ∷ some (b'e' ∷ second_bytes) ∷ none ∷ []) refl
