-- ===== src/Rtsp/Sdp/Extract/Examples.antt =====
-- src/rtsp/sdp.rs: runs of its own tests.
use buddy3d_proxy.Prelude.{◌≡◌, refl, none, some}
use buddy3d_proxy.Prelude.Text.{codes}
use buddy3d_proxy.Rtsp.Params.{H264Params}
use buddy3d_proxy.Rtsp.Sdp.{build_sdp}
use buddy3d_proxy.Rtsp.Sdp.Extract.{extract_h264_params}

abbrev params : H264Params
params = record {
  profile_level_id = codes "42c01e";
  sprop_parameter_sets = codes "Z0LAHtoHgUUg,aM48gA==";
  packetization_mode = 1;
  payload_type = 102;
}

offer_fmtp :
    extract_h264_params (
      codes
        "m=video 9\r\na=fmtp:102 level-asymmetry-allowed=1;packetization-mode=1; profile-level-id=42c01e;sprop-parameter-sets=Z0LAHtoHgUUg,aM48gA==\r\n")
    ≡ some params
unfolding extract_h264_params
offer_fmtp = refl

no_profile : extract_h264_params (codes "v=0\r\na=fmtp:96 packetization-mode=1\r\n") ≡ none
unfolding extract_h264_params
no_profile = refl

read_back : extract_h264_params (build_sdp (codes "Buddy3D Camera") params) ≡ some params
unfolding extract_h264_params build_sdp
read_back = refl
