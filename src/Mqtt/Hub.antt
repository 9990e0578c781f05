-- ===== src/Mqtt/Hub.antt =====
-- src/mqtt/hub.rs: what the hub publishes and subscribes to, and how it handles a command. The client
-- of the broker is the crate rumqttc.
pub mod Selects
mod Examples
use mathlib.Core.Option as Option
use buddy3d_proxy.Prelude.{
  ℕ, if◌then◌else◌, ◌==◌, Bool, true, false, Option, none, some, List, [], ◌∷◌, ◌++◌, map,
}
use buddy3d_proxy.Prelude.Text.{Text, codes, strip_prefix}
use buddy3d_proxy.Mqtt.Commands.{Command, set_mode, set_quality, reboot, parse}
use buddy3d_proxy.Mqtt.Discovery.{
  DiscoveryMessage, DeviceIdentity, topic_root, camera_topic, all_messages,
}
use buddy3d_proxy.Prusa.Signaling.Json.{Json}

-- A message for the broker, which retains it
pub record Publication : Type 0 where
  pub topic : Text
  pub payload : Text

module _ {Value : Type 0} (json : Json Value) where
  abbrev published : DiscoveryMessage Value → Publication
  published m = record { topic = m.topic; payload = json.to_string m.payload }

  -- What is published and subscribed to on every connect, when no call fails
  unfoldable pub announce : DeviceIdentity → List Publication × List Text
  unfolding all_messages camera_topic
  announce id = (
    map published (all_messages json id)
        ++ (record { topic = camera_topic id (codes "availability"); payload = codes "online" }
            ∷ []),
    camera_topic id (codes "mode/set")
        ∷ camera_topic id (codes "quality/set")
        ∷ camera_topic id (codes "reboot/press")
        ∷ [],
  )

  unfoldable pub republish_with_sw_version : DeviceIdentity → Text → List Publication
  unfolding all_messages
  republish_with_sw_version id sw_version =
      map published (all_messages json (record id { sw_version = sw_version }))

unfoldable pub publish_mode_state : DeviceIdentity → Text → Publication
unfolding camera_topic
publish_mode_state id mode = record { topic = camera_topic id (codes "mode/state"); payload = mode }

unfoldable pub publish_quality_state : DeviceIdentity → Text → Publication
unfolding camera_topic
publish_quality_state id quality = record {
  topic = camera_topic id (codes "quality/state");
  payload = quality;
}

-- What stands behind the camera's own prefix
unfoldable pub suffix_of : DeviceIdentity → Text → Text
suffix_of id topic = Option.get_or (strip_prefix (topic_root id ++ codes "/") topic) topic

-- The command of a message that comes in
unfoldable pub command_of : DeviceIdentity → Text → List ℕ → Option Command
unfolding suffix_of
command_of id topic payload = parse (suffix_of id topic) payload

abbrev only_known : Option Text → (Text → Publication) → List Publication
only_known none publish = []
only_known (some name) publish = publish name ∷ []

abbrev mode_name : ℕ → Option Text
mode_name m =
    if m == 1
    then some (codes "Auto")
    else if m == 2
    then some (codes "Day")
    else if m == 3
    then some (codes "Night")
    else none

abbrev quality_name : ℕ → Option Text
quality_name q =
    if q == 1
    then some (codes "SD")
    else if q == 2
    then some (codes "HD")
    else if q == 3
    then some (codes "FHD")
    else none

-- What is published when the command was dispatched
unfoldable pub echo : DeviceIdentity → Command → List Publication
echo id (set_mode m) = only_known (mode_name m) (publish_mode_state id)
echo id (set_quality q) = only_known (quality_name q) (publish_quality_state id)
echo id reboot = []

-- `dispatched` says whether `dispatch` gives `Ok` for a command.
abbrev when_dispatched : Bool → List Publication → List Publication
when_dispatched true publications = publications
when_dispatched false publications = []

abbrev pub answer_command : (Command → Bool) → DeviceIdentity → Option Command → List Publication
answer_command dispatched id none = []
answer_command dispatched id (some cmd) = when_dispatched (dispatched cmd) (echo id cmd)

unfoldable pub on_publish : (Command → Bool) → DeviceIdentity → Text → List ℕ → List Publication
on_publish dispatched id topic payload = answer_command dispatched id (command_of id topic payload)
