-- ===== src/Rtsp/Session/Examples.antt =====
-- src/rtsp/session.rs: runs of its own tests, and the theorems at concrete requests.
use mathlib.Core.Option as Option
use buddy3d_proxy.Prelude.{◌≡◌, refl, none, some, [], ◌∷◌}
use buddy3d_proxy.Prelude.Text.{codes}
use buddy3d_proxy.Rtsp.Message.{setup, play, Request, cseq}
use buddy3d_proxy.Rtsp.Session.{set_up, SessionContext, new, handle}
use buddy3d_proxy.Rtsp.Session.Laws.{IsAnswer, handle-IsAnswer}
use buddy3d_proxy.Rtsp.Session.Runs.{IsSound, handle_all, last_channel, handle_all-IsSound}

abbrev context : SessionContext
context = record {
  camera_name = codes "Buddy3D Camera";
  h264_params = record {
    profile_level_id = codes "42c01e";
    sprop_parameter_sets = codes "Z0L,aM4";
    packetization_mode = 1;
    payload_type = 96;
  };
  expected_path = codes "buddy3d-camera";
  new_session_id = codes "TESTSESSION";
}

abbrev setup_request : Request
setup_request = record {
  method = setup;
  uri = codes "rtsp://h/buddy3d-camera/streamid=0";
  headers =
      (codes "transport", codes "RTP/AVP/TCP;unicast;interleaved=2-3")
      ∷ (codes "cseq", codes "3")
      ∷ [];
  body = [];
}

abbrev play_request : Request
play_request = record {
  method = play;
  uri = codes "rtsp://h/buddy3d-camera";
  headers = (codes "cseq", codes " 4") ∷ [];
  body = [];
}

-- `setup_with_tcp_interleaved_succeeds`, on other channels
setup_with_tcp_interleaved :
    (handle new setup_request context).0
    ≡ record { state = set_up; session_id = some (codes "TESTSESSION"); rtp_channel = some 2 }
unfolding handle
setup_with_tcp_interleaved = refl

-- `play_before_setup_returns_455`
play_before_setup : (handle new play_request context).1.status ≡ 455
unfolding handle new
play_before_setup = refl

handle-IsAnswer_example :
    IsAnswer new (Option.get_or (cseq play_request) 0) (handle new play_request context)
handle-IsAnswer_example = handle-IsAnswer new play_request context

handle_all-IsSound_example :
    IsSound
      (handle_all new ((setup_request, context) ∷ []))
      (handle (handle_all new ((setup_request, context) ∷ [])) play_request context)
    × ((handle_all new ((setup_request, context) ∷ [])).rtp_channel
        ≡ last_channel none ((setup_request, context) ∷ []))
handle_all-IsSound_example = handle_all-IsSound ((setup_request, context) ∷ []) play_request context
