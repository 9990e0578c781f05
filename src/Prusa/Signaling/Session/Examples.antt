-- ===== src/Prusa/Signaling/Session/Examples.antt =====
-- src/prusa/signaling/mod.rs: a session on concrete events.
use buddy3d_proxy.Prelude.{◌≡◌, true, none, some, List, [], ◌∷◌}
use buddy3d_proxy.Prelude.Text.{codes}
use buddy3d_proxy.Prusa.Signaling.Json.Toy.{Value, figure, toy}
use buddy3d_proxy.Prusa.Signaling.Client.{
  Inbound, connected, disconnected, inbound_event, ack, transport_closed,
}
use buddy3d_proxy.Prusa.Signaling.Session.{Prost, Opening, await_connected, from_transport}
use buddy3d_proxy.Prusa.Signaling.Session.Handshake.{conversation, from_transport-conversation}

-- A notation for messages that keeps the token and a tag.
abbrev notation : Prost
notation = record {
  encode_client_authentication = λ m. some (1 ∷ m.token);
  encode_trigger = λ m. some (2 ∷ m.field1 ∷ m.token);
  encode_web_rtc_signal = λ m. some (3 ∷ m.token);
  decode_status = λ s. none;
  decode_features = λ s. none;
  decode_web_rtc_signal = λ s. none;
}

abbrev opening : Opening Value
opening = record {
  camera_token = codes "t";
  access_jwt = codes "j";
  webrtc_cfg = record { ice_servers = []; ttl_seconds = 300 };
}

abbrev inbounds : List (Inbound Value)
inbounds =
    disconnected
    ∷ connected (some (codes "sid"))
    ∷ inbound_event (codes "status") []
    ∷ ack 3 []
    ∷ ack 0 (figure 0 ∷ [])
    ∷ ack 0 (figure 0 ∷ [])
    ∷ transport_closed []
    ∷ []

from_transport-conversation_example :
    (from_transport toy notation opening true inbounds).1.sent
    ≡ conversation toy notation opening (await_connected inbounds)
from_transport-conversation_example = from_transport-conversation toy notation opening inbounds
