-- ===== src/WebRtc.antt =====
-- src/webrtc_session.rs: the session over the peer connection of the crate webrtc, which is given by
-- what it answers to each call. A description that it refuses may be set all the same: its steps behind
-- the setting can fail too.
-- The signals are handled one behind the other, since `run_session` awaits each.
pub mod IceServers
pub mod Candidates
mod Examples
use mathlib.Core.Option as Option
use buddy3d_proxy.Prelude.{
  ℕ, if◌then◌else◌, ◌==◌, Bool, true, false, ◌||◌, Option, none, some, List, [], ◌∷◌, ◌++◌, map,
}
use buddy3d_proxy.Prelude.Text.{Text, codes, strip_prefix, split}
use buddy3d_proxy.Prelude.Results.{Result, success, failure, map_err, ◌>>=◌}
use buddy3d_proxy.Proto.{SdpBody, IceCandidateBody, WebRtcSignal}
use buddy3d_proxy.Prusa.Api.{IceServerConfig, WebRtcConfig, url_list}
use buddy3d_proxy.Prusa.Signaling.Json.{Json}
use buddy3d_proxy.Prusa.Signaling.Session.{
  SignalingEvent, web_rtc_event, status_event, features_event, unknown_event, closed_event,
}

pub data SessionError : Type 0 where
  web_rtc : Text → SessionError
  send_closed : SessionError
  decode : Text → SessionError

pub record IceCandidateInit : Type 0 where
  pub candidate : Text
  pub sdp_mid : Option Text
  pub sdp_mline_index : Option ℕ

-- `given` are the candidates that the peer connection has been given, in their order.
pub record WebRtcSession : Type 0 where
  pub camera_token : Text
  pub session_id : Text
  pub pending_ice : List IceCandidateInit
  pub remote_description : Option Text
  pub given : List IceCandidateInit

unfoldable pub new : Text → Text → WebRtcSession
new camera_token session_id = record {
  camera_token = camera_token;
  session_id = session_id;
  pending_ice = [];
  remote_description = none;
  given = [];
}

-- What prost decodes and encodes of a signal's body
pub record Bodies : Type 0 where
  pub decode_sdp : List ℕ → Result Text SdpBody
  pub decode_candidate : List ℕ → Result Text IceCandidateBody
  pub encode_sdp : SdpBody → List ℕ
  pub encode_candidate : IceCandidateBody → List ℕ

-- What the peer connection answers while one signal is handled, and whether the reply can be sent.
pub record Answers : Type 0 where
  pub parse_offer : Result Text (Unit {0})
  pub set_remote : Result Text (Unit {0})
  pub set_anyway : Bool
  pub create_answer : Result Text Text
  pub set_local : Result Text (Unit {0})
  pub add_candidate : Result Text (Unit {0})
  pub reply_taken : Bool

-- A session, what it sends, and the result
abbrev pub Handled : Type 0
Handled = WebRtcSession × List WebRtcSignal × Result SessionError (Unit {0})

abbrev pub refused : WebRtcSession → SessionError → Handled
refused s e = (s, [], failure e)

unfoldable pub encode_ice_candidate : Bodies → Text → Text → List ℕ
encode_ice_candidate bodies candidate_line mid =
    bodies.encode_candidate (record { candidate = codes "a=" ++ candidate_line; stream_id = mid })

-- The callback of the peer connection for a candidate of ours
unfoldable pub on_ice_candidate : Bodies → WebRtcSession → IceCandidateInit → WebRtcSignal
unfolding encode_ice_candidate
on_ice_candidate bodies s init = record {
  token = s.camera_token;
  session_id = s.session_id;
  peer_id = s.session_id;
  body = encode_ice_candidate bodies init.candidate (Option.get_or init.sdp_mid []);
  msg_type = 4;
  direction = 2;
  ice_config = none;
}

unfoldable pub answer_signal : Bodies → WebRtcSession → Text → Text → WebRtcSignal
answer_signal bodies s sdp mid = record {
  token = s.camera_token;
  session_id = s.session_id;
  peer_id = s.session_id;
  body = bodies.encode_sdp (record { sdp = sdp; mid = mid });
  msg_type = 2;
  direction = 2;
  ice_config = none;
}

-- The remote description is set, and the candidates that waited for it are given; one that is
-- rejected is only logged.
unfoldable pub accept_offer : WebRtcSession → Text → WebRtcSession
accept_offer s sdp = record s {
  remote_description = some sdp;
  given = s.given ++ s.pending_ice;
  pending_ice = [];
}

abbrev pub send_reply : WebRtcSession → Bool → WebRtcSignal → Handled
send_reply s true reply = (s, reply ∷ [], success tt)
send_reply s false reply = (s, [], failure send_closed)

abbrev pub answer_with : Bodies → WebRtcSession → SdpBody → Answers → Result Text Text → Handled
answer_with bodies s body a (failure e) = refused s (web_rtc e)
answer_with bodies s body a (success sdp) = elim a.set_local [
  | failure e ↦ refused s (web_rtc e)
  | success done ↦ send_reply s a.reply_taken (answer_signal bodies s sdp body.mid)
]

-- The session behind a description that is refused
abbrev pub refused_offer : WebRtcSession → Text → Bool → WebRtcSession
refused_offer s sdp true = record s { remote_description = some sdp }
refused_offer s sdp false = s

abbrev pub with_offer :
    Bodies → WebRtcSession → SdpBody → Answers → Result Text (Unit {0}) → Handled
with_offer bodies s body a (failure e) = refused (refused_offer s body.sdp a.set_anyway) (web_rtc e)
with_offer bodies s body a (success done) =
    answer_with bodies (accept_offer s body.sdp) body a a.create_answer

-- `set_remote_description`, if the offer could be made of the text
abbrev pub set_offer : Bodies → WebRtcSession → SdpBody → Answers → Result Text (Unit {0}) → Handled
set_offer bodies s body a (failure e) = refused s (web_rtc e)
set_offer bodies s body a (success parsed) = with_offer bodies s body a a.set_remote

unfoldable pub handle_offer : Bodies → WebRtcSession → Answers → Result Text SdpBody → Handled
handle_offer bodies s a (failure e) = refused s (decode (codes "decode sdp: " ++ e))
handle_offer bodies s a (success body) = set_offer bodies s body a a.parse_offer

-- A candidate as the peer connection takes it
unfoldable pub init_of : IceCandidateBody → IceCandidateInit
unfolding strip_prefix
init_of body = record {
  candidate = Option.get_or (strip_prefix (codes "a=") body.candidate) body.candidate;
  sdp_mid = some body.stream_id;
  sdp_mline_index = some 0;
}

abbrev pub take_candidate : WebRtcSession → IceCandidateInit → Answers → Option Text → Handled
take_candidate s init a none =
    (record s { pending_ice = s.pending_ice ++ (init ∷ []) }, [], success tt)
take_candidate s init a (some description) =
    (record s { given = s.given ++ (init ∷ []) }, [], map_err a.add_candidate web_rtc)

unfoldable pub handle_candidate : WebRtcSession → Answers → Result Text IceCandidateBody → Handled
handle_candidate s a (failure e) = refused s (decode (codes "decode ice: " ++ e))
handle_candidate s a (success body) = take_candidate s (init_of body) a s.remote_description

unfoldable pub handle_signal : Bodies → WebRtcSession → WebRtcSignal → Answers → Handled
handle_signal bodies s signal a =
    if signal.msg_type == 3
    then handle_offer bodies s a (bodies.decode_sdp signal.body)
    else if signal.msg_type == 4
    then handle_candidate s a (bodies.decode_candidate signal.body)
    else (s, [], success tt)

-- What the select of `run_session` picks: an event of the signaling, with the answers if it is a signal,
-- or a signal to send, with whether it could be sent. `none` is the end of a channel.
pub data Picked : Type 0 where
  signaling_event : Option SignalingEvent → Answers → Picked
  outbound_signal : Option WebRtcSignal → Bool → Picked

-- Whether the loop goes on, the session, and what it sends: to its own channel, and to the server.
pub record Round : Type 0 where
  pub goes_on : Bool
  pub session : WebRtcSession
  pub queued : List WebRtcSignal
  pub sent : List WebRtcSignal

abbrev round : Bool → WebRtcSession → List WebRtcSignal → List WebRtcSignal → Round
round goes_on s queued sent = record {
  goes_on = goes_on;
  session = s;
  queued = queued;
  sent = sent;
}

abbrev handled_round : Handled → Round
handled_round (s, queued, result) = round true s queued []

unfoldable pub session_round : Bodies → WebRtcSession → Picked → Round
unfolding handle_signal
session_round bodies s (signaling_event none a) = round false s [] []
session_round bodies s (signaling_event (some (web_rtc_event signal)) a) =
    handled_round (handle_signal bodies s signal a)
session_round bodies s (signaling_event (some (status_event status)) a) = round true s [] []
session_round bodies s (signaling_event (some (features_event features)) a) = round true s [] []
session_round bodies s (signaling_event (some (unknown_event name payload)) a) = round true s [] []
session_round bodies s (signaling_event (some (closed_event reason)) a) = round false s [] []
session_round bodies s (outbound_signal none ok) = round false s [] []
session_round bodies s (outbound_signal (some out) true) = round true s [] (out ∷ [])
session_round bodies s (outbound_signal (some out) false) = round false s [] []

unfoldable pub run_session : Bodies → WebRtcSession → List Picked → Round
unfolding session_round
run_session bodies s [] = round true s [] []
run_session bodies s (p ∷ rest) =
    let r = session_round bodies s p in
    let further = run_session bodies r.session rest in
    if r.goes_on
    then round further.goes_on further.session (r.queued ++ further.queued) (r.sent ++ further.sent)
    else r
