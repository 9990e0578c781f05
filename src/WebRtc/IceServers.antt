-- ===== src/WebRtc/IceServers.antt =====
-- src/webrtc_session.rs: the ICE servers of the peer connection.
use mathlib.Core.Option as Option
use buddy3d_proxy.Prelude.{
  if◌then◌else◌, Bool, true, false, ◌||◌, none, some, List, [], ◌∷◌, ◌++◌, map,
}
use buddy3d_proxy.Prelude.Text.{Text, codes, strip_prefix, split}
use buddy3d_proxy.Prusa.Api.{IceServerConfig, url_list}
use buddy3d_proxy.Prusa.Signaling.Json.{Json}

pub record RtcIceServer : Type 0 where
  pub urls : List Text
  pub username : Text
  pub credential : Text

abbrev starts_with : Text → Text → Bool
starts_with prefix s = elim (strip_prefix prefix s) [ none ↦ false | some rest ↦ true ]

abbrev first_part : Text → List Text → Text
first_part whole [] = whole
first_part whole (part ∷ rest) = part

-- Credentials go to TURN servers only, and no query goes to any.
unfoldable pub rtc_ice_server : Text → Text → Text → RtcIceServer
unfolding strip_prefix split
rtc_ice_server username credential url =
    let is_turn = starts_with (codes "turn:") url || starts_with (codes "turns:") url in
    record {
      urls = first_part url (split b'?' url) ∷ [];
      username = if is_turn then username else [];
      credential = if is_turn then credential else [];
    }

module _ {Value : Type 0} (json : Json Value) where
  unfoldable pub rtc_ice_servers : List (IceServerConfig Value) → List RtcIceServer
  unfolding rtc_ice_server url_list
  rtc_ice_servers [] = []
  rtc_ice_servers (s ∷ rest) =
      map (rtc_ice_server (Option.get_or s.username []) (Option.get_or s.credential []))
        (url_list json s)
      ++ rtc_ice_servers rest
