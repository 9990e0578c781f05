-- ===== src/Mqtt/Commands.antt =====
-- src/mqtt/commands.rs: commands that come in, and where they are sent. Whether the live channel takes
-- an event is a parameter, and so are the answers behind the transient connection.
pub mod Dispatched
mod Examples
use buddy3d_proxy.Prelude.{ℕ, Bool, true, false, if◌then◌else◌, Option, none, some, List, [], ◌∷◌}
use buddy3d_proxy.Prelude.Text.{Text, codes, same_text, trim}
use buddy3d_proxy.Prelude.Utf8.{is_utf8}
use buddy3d_proxy.Prelude.Results.{Result, success}
use buddy3d_proxy.Prusa.Commands.{encode_camera_trigger, encode_set_mode, encode_set_quality}
use buddy3d_proxy.Prusa.Signaling.Client.{Outbound, outbound_event}
use buddy3d_proxy.Mqtt.Transient.{Answered, TransientError, send_command}

pub data Command : Type 0 where
  set_mode : ℕ → Command
  set_quality : ℕ → Command
  reboot : Command

unfoldable pub parse_trimmed : Text → Text → Option Command
unfolding same_text
parse_trimmed topic_suffix payload =
    if same_text topic_suffix (codes "mode/set")
    then (if same_text payload (codes "Auto")
        then some (set_mode 1)
        else if same_text payload (codes "Day")
        then some (set_mode 2)
        else if same_text payload (codes "Night")
        then some (set_mode 3)
        else none)
    else if same_text topic_suffix (codes "quality/set")
    then (if same_text payload (codes "SD")
        then some (set_quality 1)
        else if same_text payload (codes "HD")
        then some (set_quality 2)
        else if same_text payload (codes "FHD")
        then some (set_quality 3)
        else none)
    else if same_text topic_suffix (codes "reboot/press")
    then some reboot
    else none

unfoldable pub parse : Text → List ℕ → Option Command
unfolding parse_trimmed trim is_utf8
parse topic_suffix payload =
    if is_utf8 payload then parse_trimmed topic_suffix (trim payload) else none

pub record Message : Type 0 where
  pub kind : Text
  pub payload : List ℕ

unfoldable pub message_of : Text → Command → Message
message_of camera_token (set_mode m) = record {
  kind = codes "configuration";
  payload = encode_set_mode m camera_token;
}
message_of camera_token (set_quality q) = record {
  kind = codes "configuration";
  payload = encode_set_quality q camera_token;
}
message_of camera_token reboot = record {
  kind = codes "trigger";
  payload = encode_camera_trigger 9 camera_token;
}

-- What took the events, and the result; a `DispatchError` is the error of the transient connection.
pub record Sent (Value : Type 0) : Type 0 where
  pub live : List (Outbound Value)
  pub transient : List (Outbound Value)
  pub result : Result TransientError (Unit {0})

module _ {Value : Type 0} where
  abbrev pub event_of : Message → Outbound Value
  event_of m = outbound_event m.kind m.payload false

  abbrev from_transient : List (Outbound Value) × Result TransientError (Unit {0}) → Sent Value
  from_transient (events, result) = record { live = []; transient = events; result = result }

  -- The fallback, on the connection of `TransientSignaler::send` for the camera with this token
  unfoldable pub send_transient : Answered → Text → Message → Sent Value
  unfolding send_command
  send_transient answered transient_token m =
      from_transient (send_command answered transient_token m.kind m.payload)

  -- `live` is none without a session, and says otherwise whether its channel takes the event.
  unfoldable pub dispatch : Option Bool → Answered → Text → Text → Command → Sent Value
  unfolding message_of send_transient
  dispatch (some true) answered transient_token camera_token cmd = record {
    live = event_of (message_of camera_token cmd) ∷ [];
    transient = [];
    result = success tt;
  }
  dispatch (some false) answered transient_token camera_token cmd =
      send_transient answered transient_token (message_of camera_token cmd)
  dispatch none answered transient_token camera_token cmd =
      send_transient answered transient_token (message_of camera_token cmd)
