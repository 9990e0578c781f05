-- ===== src/Rtsp/Sdp.antt =====
-- src/rtsp/sdp.rs, `build_sdp`: the description of the stream that a viewer gets.
pub mod Extract
use buddy3d_proxy.Prelude.{◌++◌, if◌then◌else◌, []}
use buddy3d_proxy.Prelude.Text.{Text, codes, is_empty}
use buddy3d_proxy.Prelude.Decimal.{to_text}
use buddy3d_proxy.Rtsp.Params.{H264Params}

unfoldable pub sprop_clause : H264Params → Text
sprop_clause params =
    if is_empty params.sprop_parameter_sets
    then []
    else codes ";sprop-parameter-sets=" ++ params.sprop_parameter_sets

unfoldable pub build_sdp : Text → H264Params → Text
unfolding sprop_clause to_text
build_sdp session_name params =
    let pt = to_text params.payload_type in
    codes "v=0\r\no=- 0 0 IN IP4 0.0.0.0\r\ns="
    ++ (session_name
        ++ (codes "\r\nc=IN IP4 0.0.0.0\r\nt=0 0\r\nm=video 0 RTP/AVP "
            ++ (pt
                ++ (codes "\r\na=rtpmap:"
                    ++ (pt
                        ++ (codes " H264/90000\r\na=fmtp:"
                            ++ (pt
                                ++ (codes " packetization-mode="
                                    ++ (to_text params.packetization_mode
                                        ++ (codes ";profile-level-id="
                                            ++ (params.profile_level_id
                                                ++ (sprop_clause params
                                                    ++ codes
                                                        "\r\na=control:streamid=0\r\n"))))))))))))
