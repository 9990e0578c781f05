-- ===== src/Mqtt/Hub/Examples.antt =====
-- src/mqtt/hub.rs: a select of one camera, and a command that is none.
use buddy3d_proxy.Prelude.{◌≡◌, refl, ap, true, Option, none, some, List, [], ◌∷◌}
use buddy3d_proxy.Prelude.Text.{Text, codes, strip_prefix}
use buddy3d_proxy.Prelude.Results.{success}
use buddy3d_proxy.Prusa.Signaling.Json.{Json}
use buddy3d_proxy.Mqtt.Commands.{parse}
use buddy3d_proxy.Mqtt.Discovery.{
  DeviceIdentity, topic_root, mode_options, quality_options, mode_select, quality_select,
}
use buddy3d_proxy.Mqtt.Hub.{on_publish, command_of}
use buddy3d_proxy.Mqtt.Hub.Selects.{lookup, ReadsBack, IsSelect, on_publish-options}

abbrev living_room : DeviceIdentity
living_room = record {
  camera_id = codes "cam123";
  camera_name = codes "Living Room";
  sw_version = codes "0.2.0";
  topic_prefix = codes "buddy3d-proxy";
  discovery_prefix = codes "homeassistant";
}

no_such_mode :
    on_publish (λ cmd. true) living_room (codes "buddy3d-proxy/cam123/mode/set") (codes "Dusk") ≡ []
unfolding on_publish command_of parse topic_root strip_prefix
no_such_mode = refl

-- A tree of values, which stands for serde_json
mutual
  data Tree : Type 0 where
    word : Text → Tree
    items_of : Trees → Tree
    members_of : Members → Tree

  data Trees : Type 0 where
    no_trees : Trees
    and_tree : Tree → Trees → Trees

  data Members : Type 0 where
    no_members : Members
    and_member : Text → Tree → Members → Members

abbrev to_trees : List Tree → Trees
to_trees [] = no_trees
to_trees (t ∷ ts) = and_tree t (to_trees ts)

abbrev from_trees : Trees → List Tree
from_trees no_trees = []
from_trees (and_tree t ts) = t ∷ from_trees ts

from_trees-to_trees : (ts : List Tree) → from_trees (to_trees ts) ≡ ts
from_trees-to_trees [] = refl
from_trees-to_trees (t ∷ ts) = ap (◌∷◌ t) (from_trees-to_trees ts)

abbrev to_members : List (Text × Tree) → Members
to_members [] = no_members
to_members ((name, t) ∷ ms) = and_member name t (to_members ms)

abbrev from_members : Members → List (Text × Tree)
from_members no_members = []
from_members (and_member name t ms) = (name, t) ∷ from_members ms

from_members-to_members : (ms : List (Text × Tree)) → from_members (to_members ms) ≡ ms
from_members-to_members [] = refl
from_members-to_members ((name, t) ∷ ms) = ap (◌∷◌ (name, t)) (from_members-to_members ms)

abbrev word_of : Tree → Option Text
word_of (word t) = some t
word_of _ = none

abbrev trees_of : Tree → Option (List Tree)
trees_of (items_of ts) = some (from_trees ts)
trees_of _ = none

abbrev member_of : Tree → Text → Option Tree
member_of (members_of ms) key = lookup key (from_members ms)
member_of _ key = none

abbrev tree : Json Tree
tree = record {
  from_str = λ s. success (word s);
  array_from_str = λ s. success [];
  to_string = λ v. [];
  array_to_string = λ vs. [];
  string = word;
  bool = λ b. word [];
  number = λ n. word (n ∷ []);
  object = λ ms. members_of (to_members ms);
  array = λ ts. items_of (to_trees ts);
  as_str = word_of;
  as_array = trees_of;
  as_bool = λ v. none;
  as_u64 = λ v. none;
  get = member_of;
  debug_array = λ vs. [];
}

tree-ReadsBack : ReadsBack Tree tree
tree-ReadsBack = record {
  member = λ members key. ap (lookup key) (from_members-to_members members);
  text = λ t. refl;
  items = λ vs. ap some (from_trees-to_trees vs);
}

on_publish-options_example :
    IsSelect Tree tree living_room (mode_select tree living_room).payload mode_options
    × IsSelect Tree tree living_room (quality_select tree living_room).payload quality_options
on_publish-options_example = on_publish-options tree living_room tree-ReadsBack
