-- ===== src/Config.antt =====
-- src/config.rs: the configuration from environment variables, which `var` gives; a variable that is no
-- text counts as unset, as in the source. The crate url is a parameter. An error carries what its
-- message shows.
mod Examples
use mathlib.Core.Option as Option
use buddy3d_proxy.Prelude.{
  ℕ, ◌+◌, ◌-◌, ◌*◌, ◌^◌, leb, if◌then◌else◌, ◌==◌, Bool, true, false, not, ◌&&◌, ◌||◌, Option, none,
  some, List, [], ◌∷◌,
}
use buddy3d_proxy.Prelude.Text.{Text, codes, same_text, is_empty}
use buddy3d_proxy.Prelude.Decimal.{parse_unsigned, is_digit}
use buddy3d_proxy.Prelude.Results.{Result, success, failure, map_err, ok_or, ◌>>=◌}

pub record Config (Url : Type 0) : Type 0 where
  pub prusa_email : Text
  pub prusa_password : Text
  pub prusa_printer_uuid : Option Text
  pub prusa_camera_id : Option Text
  pub rtsp_port : ℕ
  pub rtsp_path : Option Text
  pub rtsp_bind_addr : Text
  pub idle_timeout : ℕ
  pub token_store_path : Text
  pub health_port : ℕ
  pub metrics_interval : ℕ
  pub mqtt_broker_url : Option Url
  pub mqtt_username : Option Text
  pub mqtt_password : Option Text
  pub mqtt_client_id : Option Text
  pub mqtt_discovery_prefix : Text
  pub mqtt_topic_prefix : Text
  pub snapshot_interval : ℕ
  pub snapshot_max_width : ℕ
  pub snapshot_jpeg_quality : ℕ

pub data Reason : Type 0 where
  not_a_number : Text → Reason
  not_a_url : Text → Reason
  bad_scheme : Text → Reason
  missing_host : Text → Reason

pub data ConfigError : Type 0 where
  missing : Text → ConfigError
  invalid : Text → Reason → ConfigError

pub record UrlCrate (Url : Type 0) : Type 0 where
  pub parse_url : Text → Option Url
  pub scheme : Url → Text
  pub host_str : Url → Option Text

-- `filter(|s| !s.is_empty())`
abbrev nonempty : Option Text → Option Text
nonempty none = none
nonempty (some s) = if is_empty s then none else some s

-- A duration of whole seconds
abbrev seconds : ℕ → ℕ
seconds n = n * 10 ^ 9

-- The message of `ParseIntError` for digits that do not make a number up to `limit`.
unfoldable pub digits_message : ℕ → ℕ → Text → Text
digits_message limit value [] = []
digits_message limit value (b ∷ bs) =
    let next = value * 10 + (b - b'0') in
    let more = digits_message limit next bs in
    if is_digit b
    then if leb next limit then more else codes "number too large to fit in target type"
    else codes "invalid digit found in string"

unfoldable pub int_message : ℕ → Text → Text
unfolding digits_message
int_message limit [] = codes "cannot parse integer from empty string"
int_message limit (b ∷ []) =
    if b == b'+' then codes "invalid digit found in string" else digits_message limit 0 (b ∷ [])
int_message limit (b ∷ c ∷ rest) =
    if b == b'+' then digits_message limit 0 (c ∷ rest) else digits_message limit 0 (b ∷ c ∷ rest)

module _ (var : Text → Option Text) where
  unfoldable pub req : Text → Result ConfigError Text
  req k = ok_or (var k) (missing k)

  unfoldable pub opt : Text → Option Text
  opt k = nonempty (var k)

  abbrev number_or : ℕ → Text → ℕ → Option Text → Result ConfigError ℕ
  number_or limit k default none = success default
  number_or limit k default (some v) =
      ok_or (parse_unsigned limit v) (invalid k (not_a_number (int_message limit v)))

  -- `parse_u8`, `parse_u16`, `parse_u32` and `parse_u64`, which differ in the limit.
  unfoldable pub parse_number : ℕ → Text → ℕ → Result ConfigError ℕ
  unfolding parse_unsigned int_message
  parse_number limit k default = number_or limit k default (var k)

  module _ {Url : Type 0} (url : UrlCrate Url) where
    unfoldable pub check_url : Text → Text → Url → Result ConfigError (Option Url)
    unfolding same_text
    check_url k raw u =
        let scheme = url.scheme u in
        if same_text scheme (codes "mqtt") || same_text scheme (codes "mqtts")
        then ok_or (Option.map (λ host. some u) (url.host_str u)) (invalid k (missing_host raw))
        else failure (invalid k (bad_scheme scheme))

    abbrev url_or_none : Text → Option Text → Result ConfigError (Option Url)
    url_or_none k none = success none
    url_or_none k (some raw) =
        ok_or (url.parse_url raw) (invalid k (not_a_url raw)) >>= check_url k raw

    unfoldable pub parse_mqtt_url : Text → Result ConfigError (Option Url)
    unfolding check_url opt
    parse_mqtt_url k = url_or_none k (opt k)

    unfoldable pub from_env : Result ConfigError (Config Url)
    unfolding req opt parse_number parse_mqtt_url
    from_env = do
      prusa_email ← req (codes "PRUSA_EMAIL")
      prusa_password ← req (codes "PRUSA_PASSWORD")
      rtsp_port ← parse_number (2 ^ 16 - 1) (codes "RTSP_PORT") 8554
      idle_timeout ← parse_number (2 ^ 64 - 1) (codes "IDLE_TIMEOUT_SECONDS") 60
      health_port ← parse_number (2 ^ 16 - 1) (codes "HEALTH_PORT") 8080
      metrics_interval ← parse_number (2 ^ 64 - 1) (codes "METRICS_INTERVAL_SECONDS") 60
      mqtt_broker_url ← parse_mqtt_url (codes "MQTT_BROKER_URL")
      snapshot_interval ← parse_number (2 ^ 64 - 1) (codes "SNAPSHOT_INTERVAL_SECONDS") 10
      snapshot_max_width ← parse_number (2 ^ 32 - 1) (codes "SNAPSHOT_MAX_WIDTH") 1920
      snapshot_jpeg_quality ← parse_number (2 ^ 8 - 1) (codes "SNAPSHOT_JPEG_QUALITY") 75
      success (record {
        prusa_email = prusa_email;
        prusa_password = prusa_password;
        prusa_printer_uuid = opt (codes "PRUSA_PRINTER_UUID");
        prusa_camera_id = opt (codes "PRUSA_CAMERA_ID");
        rtsp_port = rtsp_port;
        rtsp_path = opt (codes "RTSP_PATH");
        rtsp_bind_addr = Option.get_or (opt (codes "RTSP_BIND_ADDR")) (codes "0.0.0.0");
        idle_timeout = seconds idle_timeout;
        token_store_path =
            Option.get_or (opt (codes "TOKEN_STORE_PATH")) (codes "/data/tokens.json");
        health_port = health_port;
        metrics_interval = seconds metrics_interval;
        mqtt_broker_url = mqtt_broker_url;
        mqtt_username = opt (codes "MQTT_USERNAME");
        mqtt_password = opt (codes "MQTT_PASSWORD");
        mqtt_client_id = opt (codes "MQTT_CLIENT_ID");
        mqtt_discovery_prefix =
            Option.get_or (opt (codes "MQTT_DISCOVERY_PREFIX")) (codes "homeassistant");
        mqtt_topic_prefix = Option.get_or (opt (codes "MQTT_TOPIC_PREFIX")) (codes "buddy3d-proxy");
        snapshot_interval = seconds snapshot_interval;
        snapshot_max_width = snapshot_max_width;
        snapshot_jpeg_quality = snapshot_jpeg_quality;
      })
