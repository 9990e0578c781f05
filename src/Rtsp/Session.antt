-- ===== src/Rtsp/Session.antt =====
-- src/rtsp/session.rs: the state machine of one RTSP connection.
pub mod Laws
pub mod Runs
mod Examples
use mathlib.Core.Option as Option
use buddy3d_proxy.Prelude.{
  ℕ, ◌-◌, ◌^◌, ◌&&◌, not, if◌then◌else◌, Bool, true, false, Option, none, some, List, [], ◌∷◌, ◌++◌,
  get_elem?,
}
use buddy3d_proxy.Prelude.Text.{
  Text, codes, same_text, strip_prefix, contains, split, split_once, splitn, trim,
  trim_start_matches, is_empty,
}
use buddy3d_proxy.Prelude.Decimal.{parse_unsigned, to_text}
use buddy3d_proxy.Rtsp.Params.{H264Params}
use buddy3d_proxy.Rtsp.Sdp.{build_sdp}
use buddy3d_proxy.Rtsp.Message.{
  Method, options, describe, setup, play, teardown, get_parameter, unsupported, Request, cseq,
  header, and_then, Response, ok, error, with_header, with_body,
}

pub data State : Type 0 where
  init described set_up playing torn_down : State

pub data SessionAction : Type 0 where
  no_action : SessionAction
  start_streaming : ℕ → SessionAction
  stop : SessionAction

pub record SessionContext : Type 0 where
  pub camera_name : Text
  pub h264_params : H264Params
  pub expected_path : Text
  pub new_session_id : Text

pub record Session : Type 0 where
  pub state : State
  pub session_id : Option Text
  pub rtp_channel : Option ℕ

unfoldable pub new : Session
new = record { state = init; session_id = none; rtp_channel = none }

abbrev first_or : List Text → Text → Text
first_or [] other = other
first_or (t ∷ ts) other = t

abbrev path_part : Text → Option Text → Text
path_part uri none = trim_start_matches b'/' uri
path_part uri (some s) = trim_start_matches b'/' s

unfoldable pub uri_matches : Text → Text → Bool
unfolding splitn split same_text trim_start_matches
uri_matches uri expected_path =
    let path = path_part uri (get_elem? (splitn 4 b'/' uri) 3) in
    let main = first_or (split b'/' path) [] in
    same_text (first_or (split b';' main) []) expected_path

-- What the part with the prefix gives.
unfoldable pub channel_pair : Text → Option (ℕ × ℕ)
unfolding split_once parse_unsigned
channel_pair rest = and_then (split_once b'-' rest) (λ (a, b).
    and_then (parse_unsigned (2 ^ 8 - 1) a)
      (λ m. and_then (parse_unsigned (2 ^ 8 - 1) b) (λ n. some (m, n))))

unfoldable pub find_interleaved : List Text → Option (ℕ × ℕ)
unfolding channel_pair trim strip_prefix
find_interleaved [] = none
find_interleaved (part ∷ parts) = elim (strip_prefix (codes "interleaved=") (trim part)) [
  | none ↦ find_interleaved parts
  | some rest ↦ channel_pair rest
]

unfoldable pub parse_interleaved : Text → Option (ℕ × ℕ)
unfolding find_interleaved contains split
parse_interleaved transport =
    if not (contains transport (codes "RTP/AVP/TCP"))
    then none
    else find_interleaved (split b';' transport)

unfoldable pub handle_describe :
    Session → Request → SessionContext → ℕ → Session × Response × SessionAction
unfolding build_sdp ok with_body with_header
handle_describe s req ctx seq = (
  record s { state = described },
  with_header
      (with_body (ok seq) (codes "application/sdp") (build_sdp ctx.camera_name ctx.h264_params))
      (codes "Content-Base") req.uri,
  no_action,
)

unfoldable pub accept_setup :
    Session → SessionContext → ℕ → Option (ℕ × ℕ) → Session × Response × SessionAction
unfolding ok error with_header to_text
accept_setup s ctx seq none = (s, error 461 (codes "Unsupported Transport") seq, no_action)
accept_setup s ctx seq (some (a, b)) = (
  record { state = set_up; session_id = some ctx.new_session_id; rtp_channel = some a },
  with_header
      (with_header (ok seq) (codes "Transport")
        (codes "RTP/AVP/TCP;unicast;interleaved=" ++ (to_text a ++ (codes "-" ++ to_text b))))
      (codes "Session") ctx.new_session_id,
  no_action,
)

unfoldable pub handle_setup :
    Session → SessionContext → ℕ → Option Text → Session × Response × SessionAction
unfolding accept_setup error parse_interleaved
handle_setup s ctx seq none = (s, error 400 (codes "Bad Request") seq, no_action)
handle_setup s ctx seq (some transport) = accept_setup s ctx seq (parse_interleaved transport)

-- PLAY in the state `SetUp`.
unfoldable pub begin_playing : Session → ℕ → Option Text → Session × Response × SessionAction
unfolding ok error with_header
begin_playing s seq none = (s, error 454 (codes "Session Not Found") seq, no_action)
begin_playing s seq (some session_id) = (
  record s { state = playing },
  with_header (with_header (ok seq) (codes "Session") session_id) (codes "Range")
      (codes "npt=0.000-"),
  start_streaming (Option.get_or s.rtp_channel 0),
)

unfoldable pub handle_play : State → Session → ℕ → Session × Response × SessionAction
unfolding begin_playing error
handle_play set_up s seq = begin_playing s seq s.session_id
handle_play _ s seq = (s, error 455 (codes "Method Not Valid In This State") seq, no_action)

unfoldable pub handle_method :
    Method → Session → Request → SessionContext → ℕ → Session × Response × SessionAction
unfolding handle_describe handle_setup handle_play ok error with_header header
handle_method options s req ctx seq = (
  s,
  with_header (ok seq) (codes "Public")
      (codes "OPTIONS, DESCRIBE, SETUP, PLAY, TEARDOWN, GET_PARAMETER"),
  no_action,
)
handle_method describe s req ctx seq = handle_describe s req ctx seq
handle_method setup s req ctx seq = handle_setup s ctx seq (header req (codes "transport"))
handle_method play s req ctx seq = handle_play s.state s seq
handle_method teardown s req ctx seq = (
  record s { state = torn_down },
  with_header (ok seq) (codes "Session") (Option.get_or s.session_id []),
  stop,
)
handle_method get_parameter s req ctx seq =
    let session_id = Option.get_or s.session_id [] in
    (
      s,
      (if is_empty session_id then ok seq else with_header (ok seq) (codes "Session") session_id),
      no_action,
    )
handle_method unsupported s req ctx seq = (s, error 501 (codes "Not Implemented") seq, no_action)

abbrev pub is_options : Method → Bool
is_options options = true
is_options _ = false

-- `Session::handle`
unfoldable pub handle : Session → Request → SessionContext → Session × Response × SessionAction
unfolding handle_method uri_matches cseq error
handle s req ctx =
    let seq = Option.get_or (cseq req) 0 in
    if not (uri_matches req.uri ctx.expected_path) && not (is_options req.method)
    then (s, error 404 (codes "Not Found") seq, no_action)
    else handle_method req.method s req ctx seq
