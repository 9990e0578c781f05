-- ===== src/Prusa/Signaling/Session/Sending.antt =====
-- src/prusa/signaling/mod.rs: the events that a caller sends over a session.
use mathlib.Core.Option as Option
use buddy3d_proxy.Prelude.{Bool, true, false, Option}
use buddy3d_proxy.Prelude.Text.{Text, codes}
use buddy3d_proxy.Prelude.Results.{Result, success, failure}
use buddy3d_proxy.Proto.{WebRtcSignal}
use buddy3d_proxy.Prusa.Signaling.Client.{Outbound, outbound_event}
use buddy3d_proxy.Prusa.Signaling.Session.{Prost, SignalingError, send_closed}

-- The event that goes out, where `taken` says whether the transport still takes events.
abbrev sent_if : {Value : Type 0} → Bool → Outbound Value → Result SignalingError (Outbound Value)
sent_if true out = success out
sent_if false out = failure send_closed

-- A signal that cannot be encoded is a panic, `none`.
unfoldable pub send_webrtc :
    {Value : Type 0} → Prost → Bool → WebRtcSignal → Option (Result SignalingError (Outbound Value))
send_webrtc prost taken signal =
    Option.map (λ payload. sent_if taken (outbound_event (codes "webrtc") payload false))
      (prost.encode_web_rtc_signal signal)

unfoldable pub send_trigger :
    {Value : Type 0} → Bool → Text → Result SignalingError (Outbound Value)
send_trigger taken payload = sent_if taken (outbound_event (codes "trigger") payload false)

unfoldable pub send_configuration :
    {Value : Type 0} → Bool → Text → Result SignalingError (Outbound Value)
send_configuration taken payload =
    sent_if taken (outbound_event (codes "configuration") payload false)
