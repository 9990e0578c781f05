-- ===== src/Config/Examples.antt =====
-- src/config.rs: runs on concrete variables.
use buddy3d_proxy.Prelude.{◌≡◌, refl, ◌^◌, ◌-◌, Option, none, some, if◌then◌else◌}
use buddy3d_proxy.Prelude.Text.{Text, codes, same_text}
use buddy3d_proxy.Prelude.Results.{success, failure}
use buddy3d_proxy.Config.{parse_number, invalid, not_a_number}

abbrev only : Text → Text → Text → Option Text
only k v asked = if same_text asked k then some v else none

too_large :
    parse_number (only (codes "RTSP_PORT") (codes "65536")) (2 ^ 16 - 1) (codes "RTSP_PORT") 8554
    ≡ failure (
        invalid (codes "RTSP_PORT") (not_a_number (codes "number too large to fit in target type")))
unfolding parse_number same_text
too_large = refl

default_port :
    parse_number (only (codes "RTSP_PATH") (codes "x")) (2 ^ 16 - 1) (codes "RTSP_PORT") 8554
    ≡ success 8554
unfolding parse_number same_text
default_port = refl
