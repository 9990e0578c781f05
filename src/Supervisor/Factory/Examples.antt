-- ===== src/Supervisor/Factory/Examples.antt =====
-- src/supervisor/webrtc_factory.rs: a reconnect.
use buddy3d_proxy.Prelude.{◌≡◌, refl, none, some, [], ◌∷◌, ◌++◌, arith}
use buddy3d_proxy.Prelude.Text.{Text, codes}
use buddy3d_proxy.Prelude.Results.{success}
use buddy3d_proxy.Rtsp.Params.{H264Params}
use buddy3d_proxy.Supervisor.Factory.{
  Factory, Attempt, looked, connected, other_state, stash, connect, set_stop, settle, without,
}
use buddy3d_proxy.Supervisor.Factory.Registry.{connect-set_stop}

abbrev crlf : Text
crlf = b'\r' ∷ b'\n' ∷ []

abbrev offer : Text
offer =
    codes "a=rtpmap:96 H264/90000"
    ++ (crlf ++ (codes "a=fmtp:96 packetization-mode=1;profile-level-id=42e01f" ++ crlf))

abbrev attempt : Attempt
attempt = record {
  access_token = success (codes "jwt");
  webrtc_config = success tt;
  signaling = success 8;
  session = success tt;
  sights = looked none other_state ∷ looked (some offer) connected ∷ [];
}

abbrev offered : H264Params
offered = record {
  profile_level_id = codes "42e01f";
  sprop_parameter_sets = [];
  packetization_mode = 1;
  payload_type = 96;
}

abbrev before : Factory
before = record { live_outbound = some 7; clears = 0; sessions = 7 ∷ [] }

attempt_succeeds : connect before attempt ≡ some (stash 8 before, success (offered, 8))
unfolding connect
attempt_succeeds = refl

connect-set_stop_example :
    ((settle (set_stop none 8 (stash 8 before)).0).live_outbound ≡ some 8)
    × ((settle (set_stop (some 7) 8 (stash 8 before)).0).live_outbound ≡ none)
    × ((settle (set_stop (some 7) 8 (stash 8 before)).0).sessions ≡ 8 ∷ without 7 (7 ∷ []))
connect-set_stop_example =
    connect-set_stop before (stash 8 before) attempt offered 8 7 attempt_succeeds refl (omega arith)
