-- ===== src/Prusa/Api.antt =====
-- src/prusa/api.rs: what the REST calls return. The calls are requests to a server, and not modelled.
use buddy3d_proxy.Prelude.{ℕ, Option, none, some, List, [], ◌∷◌}
use buddy3d_proxy.Prelude.Text.{Text}
use buddy3d_proxy.Prusa.Signaling.Json.{Json}
use buddy3d_proxy.Prusa.Signaling.Socketio.{filter_map}

pub record Printer : Type 0 where
  pub uuid : Text
  pub name : Text

pub record Camera : Type 0 where
  pub id : ℕ
  pub name : Option Text
  pub token : Text

pub record IceServerConfig (Value : Type 0) : Type 0 where
  pub urls : Value
  pub username : Option Text
  pub credential : Option Text

pub record WebRtcConfig (Value : Type 0) : Type 0 where
  pub ice_servers : List (IceServerConfig Value)
  pub ttl_seconds : ℕ

module _ {Value : Type 0} (json : Json Value) where
  abbrev array_urls : Option (List Value) → List Text
  array_urls none = []
  array_urls (some a) = filter_map json.as_str a

  abbrev urls_of : Option Text → Option (List Value) → List Text
  urls_of (some s) a = s ∷ []
  urls_of none a = array_urls a

  unfoldable pub url_list : IceServerConfig Value → List Text
  url_list entry = urls_of (json.as_str entry.urls) (json.as_array entry.urls)
