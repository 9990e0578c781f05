-- ===== src/Mqtt/Hub/Selects.antt =====
-- src/mqtt/hub.rs, src/mqtt/discovery.rs, src/mqtt/commands.rs: the selects of Home Assistant.
use mathlib.Core.Option as Option
use buddy3d_proxy.Prelude.{
  ◌≡◌, refl, sym, ap, ◌∙◌, ◌==◌, true, if◌then◌else◌, Option, none, some, List, [], ◌∷◌, ◌++◌, All,
  map, append_assoc, arith,
}
use buddy3d_proxy.Prelude.Text.{Text, codes, strip_prefix, same_text}
use buddy3d_proxy.Prusa.Signaling.Json.{Json}
use buddy3d_proxy.Prusa.Signaling.Socketio.{and_then}
use buddy3d_proxy.Mqtt.Commands.{Command, set_mode, set_quality, parse}
use buddy3d_proxy.Mqtt.Discovery.{
  DeviceIdentity, topic_root, camera_topic, mode_options, quality_options, mode_select,
  quality_select,
}
use buddy3d_proxy.Mqtt.Hub.{
  suffix_of, command_of, echo, answer_command, on_publish, publish_mode_state,
  publish_quality_state, announce,
}

strip_prefix-append_self : (p s : Text) → strip_prefix p (p ++ s) ≡ some s
unfolding strip_prefix
strip_prefix-append_self [] s = refl
strip_prefix-append_self (b ∷ p) s =
    let same : (b == b) ≡ true = ground arith in rw (same) (strip_prefix-append_self p s)

suffix_of-camera_topic :
    (id : DeviceIdentity) (rest : Text) → suffix_of id (camera_topic id rest) ≡ rest
unfolding suffix_of camera_topic
suffix_of-camera_topic id rest =
    let root = topic_root id in
    let whole = root ++ (codes "/" ++ rest) in
    ap (λ o. Option.get_or o whole)
      (ap (strip_prefix (root ++ codes "/")) (sym (append_assoc root (codes "/") rest))
        ∙ strip_prefix-append_self (root ++ codes "/") rest)

on_publish-camera_topic :
    (id : DeviceIdentity) (rest : Text) (payload : Text) (cmd : Command)
    → parse rest payload ≡ some cmd
    → on_publish (λ c. true) id (camera_topic id rest) payload ≡ echo id cmd
unfolding on_publish command_of
on_publish-camera_topic id rest payload cmd e =
    ap (λ suffix. answer_command (λ c. true) id (parse suffix payload))
      (suffix_of-camera_topic id rest)
    ∙ ap (answer_command (λ c. true) id) e

-- The member of an object: of two with one name the last.
abbrev pub lookup {ℓ} : {A : Type ℓ} → Text → List (Text × A) → Option A
lookup key [] = none
lookup key ((name, v) ∷ members) = elim (lookup key members) [
  | none ↦ if same_text name key then some v else none
  | some w ↦ some w
]

-- What is relied on of serde_json: the values that it builds are read back.
pub record ReadsBack (Value : Type 0) (json : Json Value) : Type 0 where
  pub member :
      (members : List (Text × Value)) (key : Text)
      → json.get (json.object members) key ≡ lookup key members
  pub text : (t : Text) → json.as_str (json.string t) ≡ some t
  pub items : (vs : List Value) → json.as_array (json.array vs) ≡ some vs

-- The text that a document has under a key
abbrev pub text_at : {Value : Type 0} → Json Value → Value → Text → Option Text
text_at json document key = and_then (json.get document key) json.as_str

-- A document of a select with these options: its own command topic is one that the hub subscribes to,
-- and every option on it is, once its command is dispatched, published on its own state topic,
-- alone.
pub record IsSelect (Value : Type 0) (json : Json Value) (id : DeviceIdentity) (document : Value)
    (options : List Text) : Type 0 where
  pub command_topic : Text
  pub state_topic : Text
  pub command : text_at json document (codes "command_topic") ≡ some command_topic
  pub state : text_at json document (codes "state_topic") ≡ some state_topic
  pub offered :
      and_then (json.get document (codes "options")) json.as_array ≡ some (map json.string options)
  pub subscribed :
      (before : List Text) × (after : List Text) × ((announce json id).1
        ≡ before ++ (command_topic ∷ after))
  pub echoed :
      All
        (λ option.
          on_publish (λ cmd. true) id command_topic option
          ≡ record { topic = state_topic; payload = option } ∷ [])
        options

-- For every camera, with values that serde_json reads back: the documents of the two selects have a
-- command topic that the hub subscribes to, and a state topic, and offer these options; and every
-- option, on the document's command topic, is a command of the proxy, and once it is dispatched
-- the option itself, and nothing else, is published on the document's state topic.
pub on_publish-options :
    {Value : Type 0} (json : Json Value) (id : DeviceIdentity)
    → ReadsBack Value json
    → IsSelect Value json id (mode_select json id).payload mode_options
      × IsSelect Value json id (quality_select json id).payload quality_options
unfolding echo publish_mode_state publish_quality_state parse mode_select quality_select announce
    same_text
on_publish-options json id r = (
  record {
    command_topic = camera_topic id (codes "mode/set");
    state_topic = camera_topic id (codes "mode/state");
    command =
        ap (λ o. and_then o json.as_str) (r.member _ (codes "command_topic"))
        ∙ r.text (camera_topic id (codes "mode/set"));
    state =
        ap (λ o. and_then o json.as_str) (r.member _ (codes "state_topic"))
        ∙ r.text (camera_topic id (codes "mode/state"));
    offered = ap (λ o. and_then o json.as_array) (r.member _ (codes "options")) ∙ r.items _;
    subscribed = ([], _, refl);
    echoed = (
      on_publish-camera_topic id (codes "mode/set") (codes "Auto") (set_mode 1) refl,
      (
        on_publish-camera_topic id (codes "mode/set") (codes "Day") (set_mode 2) refl,
        (on_publish-camera_topic id (codes "mode/set") (codes "Night") (set_mode 3) refl, tt),
      ),
    );
  },
  record {
    command_topic = camera_topic id (codes "quality/set");
    state_topic = camera_topic id (codes "quality/state");
    command =
        ap (λ o. and_then o json.as_str) (r.member _ (codes "command_topic"))
        ∙ r.text (camera_topic id (codes "quality/set"));
    state =
        ap (λ o. and_then o json.as_str) (r.member _ (codes "state_topic"))
        ∙ r.text (camera_topic id (codes "quality/state"));
    offered = ap (λ o. and_then o json.as_array) (r.member _ (codes "options")) ∙ r.items _;
    subscribed = (camera_topic id (codes "mode/set") ∷ [], _, refl);
    echoed = (
      on_publish-camera_topic id (codes "quality/set") (codes "SD") (set_quality 1) refl,
      (
        on_publish-camera_topic id (codes "quality/set") (codes "HD") (set_quality 2) refl,
        (on_publish-camera_topic id (codes "quality/set") (codes "FHD") (set_quality 3) refl, tt),
      ),
    );
  },
)
