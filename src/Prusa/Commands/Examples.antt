-- ===== src/Prusa/Commands/Examples.antt =====
-- src/prusa/commands.rs: runs of its own tests, and the theorems at concrete commands.
use buddy3d_proxy.Prelude.{◌≡◌, refl, some, [], ◌∷◌, ◌++◌, arith}
use buddy3d_proxy.Prelude.Text.{Text, codes}
use buddy3d_proxy.Prusa.Commands.{
  encode_varint, encode_camera_trigger, encode_set_mode, encode_set_quality,
}
use buddy3d_proxy.Prusa.Commands.Quality.{read_fields-encode_set_quality}
use buddy3d_proxy.Prusa.Commands.Fields.{varint_field, bytes_field, read_fields, wire_varint}

abbrev token : Text
token = codes "I47hvQfXx6SOPWD4bO00"

-- `restart_camera_matches_captured_payload`
restart_camera : encode_camera_trigger 9 token ≡ 0x48 ∷ 0x01 ∷ 0x5a ∷ 0x14 ∷ token
unfolding encode_camera_trigger encode_varint
restart_camera = refl

-- `set_mode_matches_captured_payload`
set_mode : encode_set_mode 1 token ≡ 0x1a ∷ 0x02 ∷ 0x20 ∷ 0x01 ∷ 0x32 ∷ 0x14 ∷ token
unfolding encode_set_mode encode_varint
set_mode = refl

-- `set_quality_matches_captured_payload`
set_quality :
    encode_set_quality 3 token
    ≡ 0x22 ∷ 0x00 ∷ 0x32 ∷ 0x14 ∷ (token ++ (0x42 ∷ 0x02 ∷ 0x08 ∷ 0x03 ∷ []))
unfolding encode_set_quality encode_varint
set_quality = refl

read_fields-encode_set_quality_example :
    (read_fields 3 (encode_set_quality 3 token)
      ≡ some (bytes_field 4 [] ∷ bytes_field 6 token ∷ bytes_field 8 (wire_varint 1 3) ∷ []))
    × (read_fields 1 (wire_varint 1 3) ≡ some (varint_field 1 3 ∷ []))
read_fields-encode_set_quality_example =
    read_fields-encode_set_quality 3 token (omega arith) (omega arith)
