-- ===== src/Prusa/Signaling/Session.antt =====
-- src/prusa/signaling/mod.rs: the session with the signaling server, from the CONNECT to the events that
-- a caller sees. The task is cancelled when nobody consumes its events, so what it did by then is
-- what it does for the events it had received. serde_json and prost are parameters; what prost
-- cannot encode or decode is `none`.
pub mod Sending
pub mod Handshake
mod Examples
use mathlib.Core.Option as Option
use buddy3d_proxy.Prelude.{
  ℕ, zero, suc, if◌then◌else◌, ◌==◌, Bool, true, false, not, ◌&&◌, Option, none, some, List, [],
  ◌∷◌, ◌++◌,
}
use buddy3d_proxy.Prelude.Text.{Text, codes, same_text}
use buddy3d_proxy.Prelude.Results.{Result, success, failure}
use buddy3d_proxy.Proto.{ClientAuthentication, Trigger, WebRtcSignal, Status, Features}
use buddy3d_proxy.Prusa.Api.{WebRtcConfig}
use buddy3d_proxy.Prusa.Signaling.Json.{Json}
use buddy3d_proxy.Prusa.Signaling.Socketio.{and_then}
use buddy3d_proxy.Prusa.Signaling.Client.{
  Outbound, connect, outbound_event, Inbound, connected, disconnected, inbound_event, ack,
  transport_closed, ClientError, closed,
}
use buddy3d_proxy.Prusa.Signaling.Ice.{build_ice_config}

pub record Prost : Type 0 where
  pub encode_client_authentication : ClientAuthentication → Option Text
  pub encode_trigger : Trigger → Option Text
  pub encode_web_rtc_signal : WebRtcSignal → Option Text
  pub decode_status : Text → Option Status
  pub decode_features : Text → Option Features
  pub decode_web_rtc_signal : Text → Option WebRtcSignal

pub data SignalingEvent : Type 0 where
  status_event : Status → SignalingEvent
  features_event : Features → SignalingEvent
  web_rtc_event : WebRtcSignal → SignalingEvent
  unknown_event : Text → Text → SignalingEvent
  closed_event : Text → SignalingEvent

pub data SignalingError : Type 0 where
  client_error : ClientError → SignalingError
  send_closed : SignalingError

abbrev decoded {ℓ} :
    {A : Type ℓ} → (A → SignalingEvent) → SignalingEvent → Option A → SignalingEvent
decoded f other none = other
decoded f other (some a) = f a

unfoldable pub translate_binary : Prost → Text → Text → SignalingEvent
unfolding same_text
translate_binary prost name payload =
    let unknown = unknown_event name payload in
    if same_text name (codes "status")
    then decoded status_event unknown (prost.decode_status payload)
    else if same_text name (codes "features")
    then decoded features_event unknown (prost.decode_features payload)
    else if same_text name (codes "webrtc")
    then decoded web_rtc_event unknown (prost.decode_web_rtc_signal payload)
    else unknown

-- What a session is opened with.
pub record Opening (Value : Type 0) : Type 0 where
  pub camera_token : Text
  pub access_jwt : Text
  pub webrtc_cfg : WebRtcConfig Value

-- What a session has done: what it sent, the events it translated, and the statuses that it passed
-- to the sink.
pub record Done (Value : Type 0) : Type 0 where
  pub sent : List (Outbound Value)
  pub events : List SignalingEvent
  pub statuses : List Status

module _ {Value : Type 0} where
  abbrev pub nothing : Done Value
  nothing = record { sent = []; events = []; statuses = [] }

  abbrev pub sending : List (Outbound Value) → Done Value
  sending out = record { sent = out; events = []; statuses = [] }

  abbrev pub giving : SignalingEvent → List Status → Done Value
  giving e statuses = record { sent = []; events = e ∷ []; statuses = statuses }

  abbrev pub then_done : Done Value → Done Value → Done Value
  then_done a b = record {
    sent = a.sent ++ b.sent;
    events = a.events ++ b.events;
    statuses = a.statuses ++ b.statuses;
  }

  -- What is done behind a turn, unless the task ends with it
  abbrev pub proceed : Bool × Bool × Done Value → (Bool → Done Value) → Done Value
  proceed (false, auth_acked, effect) further = effect
  proceed (true, auth_acked, effect) further = then_done effect (further auth_acked)

  -- An event for the server, if its payload could be encoded
  abbrev pub emit : Text → Bool → Option Text → List (Outbound Value)
  emit name expect_ack none = []
  emit name expect_ack (some payload) = outbound_event name payload expect_ack ∷ []

  -- The sid of the CONNECT reply, and what arrives behind it
  unfoldable pub await_connected :
      List (Inbound Value) → Result SignalingError (Text × List (Inbound Value))
  await_connected [] = failure (client_error (closed (codes "stream end")))
  await_connected (connected sid ∷ rest) = success (Option.get_or sid [], rest)
  await_connected (transport_closed reason ∷ rest) = failure (client_error (closed reason))
  await_connected (disconnected ∷ rest) = await_connected rest
  await_connected (inbound_event name payload ∷ rest) = await_connected rest
  await_connected (ack id payload ∷ rest) = await_connected rest

abbrev statuses_of : SignalingEvent → List Status
statuses_of (status_event s) = s ∷ []
statuses_of _ = []

module _ {Value : Type 0} (json : Json Value) (prost : Prost) (o : Opening Value) where
  unfoldable pub client_authentication : Option Text
  client_authentication =
      prost.encode_client_authentication
        (record { token = o.camera_token; client_kind = codes "client"; access_jwt = o.access_jwt })

  unfoldable pub trigger : ℕ → ℕ → List (Outbound Value)
  trigger f1 f2 =
      emit (codes "trigger") false
        (prost.encode_trigger (record { field1 = f1; field2 = f2; token = o.camera_token }))

  unfoldable pub kickoff : Text → List (Outbound Value)
  unfolding build_ice_config
  kickoff sid = emit (codes "webrtc") false (
      prost.encode_web_rtc_signal (record {
        token = o.camera_token;
        session_id = sid;
        peer_id = sid;
        body = [];
        msg_type = 1;
        direction = 2;
        ice_config = some (build_ice_config json o.webrtc_cfg);
      }))

  -- The payload is `[0]` for success.
  unfoldable pub is_accepted : List Value → Bool
  is_accepted [] = false
  is_accepted (v ∷ rest) = Option.get_or (Option.map (λ n. n == 0) (json.as_u64 v)) false

  -- What the acknowledgement of the authentication leads to
  unfoldable pub on_auth_ack : Text → List Value → Bool × Done Value
  on_auth_ack sid payload =
      if is_accepted payload
      then (true, sending (trigger 1 0 ++ (trigger 0 1 ++ kickoff sid)))
      else (
        false,
        giving (closed_event (codes "auth ack rejected: " ++ json.debug_array payload)) [],
      )

  -- A turn of the loop, with whether the task goes on and whether authentication is acknowledged.
  unfoldable pub translate : Text → Bool → Inbound Value → Bool × Bool × Done Value
  unfolding translate_binary on_auth_ack
  translate sid auth_acked (inbound_event name payload) =
      let e = translate_binary prost name payload in (true, auth_acked, giving e (statuses_of e))
  translate sid auth_acked (ack id payload) =
      let (accepted, effect) = on_auth_ack sid payload in
      if not auth_acked && id == 0
      then (accepted, accepted, effect)
      else (true, auth_acked, nothing)
  translate sid auth_acked (transport_closed reason) =
      (true, auth_acked, giving (closed_event reason) [])
  translate sid auth_acked disconnected =
      (true, auth_acked, giving (closed_event (codes "disconnect")) [])
  translate sid auth_acked (connected again) = (true, auth_acked, nothing)

  -- The loop, with whether authentication is acknowledged when it begins
  unfoldable pub translate_all : Text → List (Inbound Value) → Bool → Done Value
  translate_all sid [] auth_acked = nothing
  translate_all sid (e ∷ rest) auth_acked =
      proceed (translate sid auth_acked e) (translate_all sid rest)

  -- The task: it authenticates, and translates what arrives.
  abbrev authenticated : Text → List (Inbound Value) → Option Text → Done Value
  authenticated sid inbounds none = giving (closed_event (codes "encode auth")) []
  authenticated sid inbounds (some payload) =
      then_done (sending (outbound_event (codes "client_authentication") payload true ∷ []))
        (translate_all sid inbounds false)

  unfoldable pub run_translator : Text → List (Inbound Value) → Done Value
  unfolding translate_all
  run_translator sid inbounds = authenticated sid inbounds client_authentication

  abbrev behind_reply :
      Result SignalingError (Text × List (Inbound Value)) → Result SignalingError Text × Done Value
  behind_reply (failure e) = (failure e, nothing)
  behind_reply (success (sid, rest)) = (success sid, run_translator sid rest)

  abbrev pub connect_request : Outbound Value
  connect_request = connect (json.object ((codes "token", json.string o.camera_token) ∷ []))

  -- The session id or the error, and what is done; the flag says whether the transport still takes
  -- the CONNECT.
  unfoldable pub from_transport :
      Bool → List (Inbound Value) → Result SignalingError Text × Done Value
  unfolding await_connected run_translator
  from_transport false inbounds = (failure send_closed, nothing)
  from_transport true inbounds =
      let (r, done) = behind_reply (await_connected inbounds) in
      (r, then_done (sending (connect_request ∷ [])) done)
