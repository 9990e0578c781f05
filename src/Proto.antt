-- ===== src/Proto.antt =====
-- src/proto/buddy3d.rs: the messages of the signaling protocol. Their encoding by prost is not modelled:
-- it is a parameter where it is used.
use buddy3d_proxy.Prelude.{ℕ, Option, List}
use buddy3d_proxy.Prelude.Text.{Text}

pub record ClientAuthentication : Type 0 where
  pub token : Text
  pub client_kind : Text
  pub access_jwt : Text

pub record Trigger : Type 0 where
  pub field1 : ℕ
  pub field2 : ℕ
  pub token : Text

pub record IceServer : Type 0 where
  pub server_type : ℕ
  pub host : Text
  pub port : ℕ
  pub transport : ℕ

pub record IceServerGroup : Type 0 where
  pub servers : List IceServer
  pub username : Text
  pub credential : Text

pub record IceConfig : Type 0 where
  pub server_groups : List IceServerGroup
  pub field2 : ℕ
  pub ttl_seconds : ℕ

pub record SdpBody : Type 0 where
  pub sdp : Text
  pub mid : Text

pub record IceCandidateBody : Type 0 where
  pub candidate : Text
  pub stream_id : Text

pub record WebRtcSignal : Type 0 where
  pub token : Text
  pub session_id : Text
  pub peer_id : Text
  pub body : List ℕ
  pub msg_type : ℕ
  pub direction : ℕ
  pub ice_config : Option IceConfig

pub record CameraIdentity : Type 0 where
  pub camera_name : Text
  pub mac_address : Text
  pub ip_address : Text
  pub field5 : ℕ

pub record CameraIdentityOuter : Type 0 where
  pub identity : Option CameraIdentity

pub record SysInfo : Type 0 where
  pub uptime_epoch : ℕ
  pub uptime_seconds : ℕ
  pub uptime_human : Text
  pub load_avg : Text
  pub mem_total_kb : ℕ
  pub mem_free_kb : ℕ
  pub mem_available_kb : ℕ
  pub cpu_temp_int : ℕ

pub record StatusFlags : Type 0 where
  pub field1 : ℕ

pub record StreamConfig : Type 0 where
  pub mode : ℕ
  pub quality : ℕ
  pub rtsp_url : Text

pub record CameraCapabilities : Type 0 where
  pub fw_version : Text
  pub hw_version : Text
  pub camera_name : Text
  pub opaque_f4 : List ℕ
  pub stream_config : Option StreamConfig
  pub opaque_f7 : List ℕ
  pub opaque_f9 : List ℕ

pub record Status : Type 0 where
  pub opaque_f2 : List ℕ
  pub opaque_f3 : List ℕ
  pub identity : Option CameraIdentityOuter
  pub capabilities : Option CameraCapabilities
  pub token : Text
  pub sys_info : Option SysInfo
  pub camera_id : Text
  pub flags : Option StatusFlags

pub record Features : Type 0 where
  pub token : Text
  pub fw_version : Text
  pub hw_version : Text
  pub schema_version : Text
  pub features_json : Text
  pub features_hash : Text
