-- ===== src/Mqtt/Discovery.antt =====
-- src/mqtt/discovery.rs: the documents by which Home Assistant learns of the camera.
use buddy3d_proxy.Prelude.{List, [], ◌∷◌, ◌++◌, map}
use buddy3d_proxy.Prelude.Text.{Text, codes}
use buddy3d_proxy.Prusa.Signaling.Json.{Json}

pub record DiscoveryMessage (Value : Type 0) : Type 0 where
  pub topic : Text
  pub payload : Value

pub record DeviceIdentity : Type 0 where
  pub camera_id : Text
  pub camera_name : Text
  pub sw_version : Text
  pub topic_prefix : Text
  pub discovery_prefix : Text

unfoldable pub topic_root : DeviceIdentity → Text
topic_root id = id.topic_prefix ++ (codes "/" ++ id.camera_id)

-- A topic of the camera
unfoldable pub camera_topic : DeviceIdentity → Text → Text
unfolding topic_root
camera_topic id rest = topic_root id ++ (codes "/" ++ rest)

unfoldable pub discovery_topic : DeviceIdentity → Text → Text → Text
discovery_topic id component object_id =
    id.discovery_prefix
    ++ (codes "/"
        ++ (component
            ++ (codes "/buddy3d_proxy_"
                ++ (id.camera_id ++ (codes "/" ++ (object_id ++ codes "/config"))))))

abbrev pub mode_options : List Text
mode_options = codes "Auto" ∷ codes "Day" ∷ codes "Night" ∷ []

abbrev pub quality_options : List Text
quality_options = codes "SD" ∷ codes "HD" ∷ codes "FHD" ∷ []

module _ {Value : Type 0} (json : Json Value) (id : DeviceIdentity) where
  unfoldable pub device_block : Value
  device_block = json.object (
      (codes "identifiers", json.array (json.string (codes "buddy3d-proxy-" ++ id.camera_id) ∷ []))
      ∷ (codes "name", json.string id.camera_name)
      ∷ (codes "manufacturer", json.string (codes "Prusa"))
      ∷ (codes "model", json.string (codes "Buddy3D Camera"))
      ∷ (codes "sw_version", json.string id.sw_version)
      ∷ [])

  -- What every document has: a name, an id that is its own, when the camera is there, and the device.
  abbrev common : Text → Text → List (Text × Value)
  common name unique =
      (codes "name", json.string name)
      ∷ (
        codes "unique_id",
        json.string (codes "buddy3d_proxy_" ++ (id.camera_id ++ (codes "_" ++ unique))),
      )
      ∷ (codes "availability_topic", json.string (camera_topic id (codes "availability")))
      ∷ (codes "device", device_block)
      ∷ []

  abbrev document : Text → Text → Text → Text → List (Text × Value) → DiscoveryMessage Value
  document component object_id name unique own = record {
    topic = discovery_topic id component object_id;
    payload = json.object (common name unique ++ own);
  }

  unfoldable pub camera : DiscoveryMessage Value
  unfolding device_block camera_topic discovery_topic
  camera =
      document (codes "camera") (codes "snapshot") (codes "Snapshot") (codes "camera")
        ((codes "topic", json.string (camera_topic id (codes "snapshot"))) ∷ [])

  unfoldable pub state_sensor : DiscoveryMessage Value
  unfolding device_block camera_topic discovery_topic
  state_sensor = document (codes "sensor") (codes "state") (codes "State") (codes "state") (
      (codes "state_topic", json.string (camera_topic id (codes "state")))
      ∷ (codes "icon", json.string (codes "mdi:cctv"))
      ∷ [])

  abbrev select_of : Text → List Text → Text → List (Text × Value)
  select_of what options icon =
      (codes "command_topic", json.string (camera_topic id (what ++ codes "/set")))
      ∷ (codes "state_topic", json.string (camera_topic id (what ++ codes "/state")))
      ∷ (codes "options", json.array (map json.string options))
      ∷ (codes "icon", json.string icon)
      ∷ []

  unfoldable pub mode_select : DiscoveryMessage Value
  unfolding device_block camera_topic discovery_topic
  mode_select =
      document (codes "select") (codes "mode") (codes "Mode") (codes "mode")
        (select_of (codes "mode") mode_options (codes "mdi:weather-night"))

  unfoldable pub quality_select : DiscoveryMessage Value
  unfolding device_block camera_topic discovery_topic
  quality_select =
      document (codes "select") (codes "quality") (codes "Quality") (codes "quality")
        (select_of (codes "quality") quality_options (codes "mdi:high-definition"))

  unfoldable pub reboot_button : DiscoveryMessage Value
  unfolding device_block camera_topic discovery_topic
  reboot_button =
      document (codes "button") (codes "reboot") (codes "Reboot Camera") (codes "reboot") (
        (codes "command_topic", json.string (camera_topic id (codes "reboot/press")))
        ∷ (codes "payload_press", json.string (codes "PRESS"))
        ∷ (codes "device_class", json.string (codes "restart"))
        ∷ [])

  -- `all`
  unfoldable pub all_messages : List (DiscoveryMessage Value)
  unfolding camera state_sensor mode_select quality_select reboot_button
  all_messages = camera ∷ state_sensor ∷ mode_select ∷ quality_select ∷ reboot_button ∷ []
