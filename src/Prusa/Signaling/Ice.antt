-- ===== src/Prusa/Signaling/Ice.antt =====
-- src/prusa/signaling/mod.rs: the ICE servers of the kick-off.
use mathlib.Core.Option as Option
use buddy3d_proxy.Prelude.{ℕ, ◌-◌, ◌^◌, leb, if◌then◌else◌, Option, none, some, [], map}
use buddy3d_proxy.Prelude.Text.{Text, codes, same_text, split_once, rsplit_once, to_ascii_lowercase}
use buddy3d_proxy.Prelude.Decimal.{parse_unsigned}
use buddy3d_proxy.Proto.{IceServer, IceServerGroup, IceConfig}
use buddy3d_proxy.Prusa.Signaling.Json.{Json}
use buddy3d_proxy.Prusa.Api.{IceServerConfig, WebRtcConfig, url_list}

unfoldable pub server_type_of : Text → ℕ
unfolding same_text
server_type_of scheme =
    if same_text scheme (codes "stun")
    then 1
    else if same_text scheme (codes "turn")
    then 2
    else if same_text scheme (codes "turns")
    then 3
    else 0

unfoldable pub transport_of : Text → ℕ
unfolding same_text
transport_of name =
    if same_text name (codes "udp")
    then 1
    else if same_text name (codes "tcp")
    then 2
    else if same_text name (codes "tls")
    then 3
    else 0

abbrev host_and_port : Text → Option (Text × Text) → Text × ℕ
host_and_port whole none = (whole, 0)
host_and_port whole (some (h, p)) = (h, Option.get_or (parse_unsigned (2 ^ 32 - 1) p) 0)

abbrev value_of : Option (Text × Text) → Text
value_of none = []
value_of (some (key, value)) = value

unfoldable pub parse_ice_url : Text → IceServer
unfolding server_type_of transport_of split_once rsplit_once parse_unsigned to_ascii_lowercase
parse_ice_url url =
    let (scheme, rest) = Option.get_or (split_once b':' url) (codes "stun", url) in
    let (host_port, query) = Option.get_or (split_once b'?' rest) (rest, []) in
    let (host, port) = host_and_port host_port (rsplit_once b':' host_port) in
    let name = to_ascii_lowercase (value_of (split_once b'=' query)) in
    record {
      server_type = server_type_of scheme;
      host = host;
      port = port;
      transport = transport_of name;
    }

module _ {Value : Type 0} (json : Json Value) where
  unfoldable pub ice_group : IceServerConfig Value → IceServerGroup
  unfolding url_list parse_ice_url
  ice_group entry = record {
    servers = map parse_ice_url (url_list json entry);
    username = Option.get_or entry.username [];
    credential = Option.get_or entry.credential [];
  }

  unfoldable pub build_ice_config : WebRtcConfig Value → IceConfig
  unfolding ice_group
  build_ice_config cfg = record {
    server_groups = map (ice_group) cfg.ice_servers;
    field2 = 1;
    ttl_seconds = if leb cfg.ttl_seconds (2 ^ 32 - 1) then cfg.ttl_seconds else 300;
  }
