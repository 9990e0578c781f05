-- ===== src/Rtsp/Sdp/Extract.antt =====
-- src/rtsp/sdp.rs, `extract_h264_params`: the parameters in the offer of the camera.
mod Examples
use buddy3d_proxy.Prelude.{
  ℕ, ◌^◌, ◌-◌, ◌==◌, ◌&&◌, if◌then◌else◌, Option, none, some, List, [], ◌∷◌,
}
use buddy3d_proxy.Prelude.Text.{
  Text, codes, same_text, strip_prefix, split, split_once, trim, is_empty,
}
use buddy3d_proxy.Prelude.Decimal.{parse_unsigned}
use buddy3d_proxy.Rtsp.Params.{H264Params}

-- `trim_end_matches` of an ASCII character
unfoldable pub trim_end_matches : ℕ → Text → Text
trim_end_matches c [] = []
trim_end_matches c (b ∷ bs) =
    let rest = trim_end_matches c bs in if is_empty rest && b == c then [] else b ∷ rest

-- `lines()`, which gives no empty line behind the last line feed; the `\r` at an end is left on, for
-- the loop takes all of them off.
unfoldable pub without_last_empty : List Text → List Text
without_last_empty [] = []
without_last_empty (t ∷ []) = if is_empty t then [] else t ∷ []
without_last_empty (t ∷ u ∷ rest) = t ∷ without_last_empty (u ∷ rest)

pub record Found : Type 0 where
  pub profile_level_id : Option Text
  pub sprop : Text
  pub packetization_mode : ℕ

abbrev with_mode : Found → Option ℕ → Found
with_mode f none = f
with_mode f (some n) = record f { packetization_mode = n }

-- One key with its value.
unfoldable pub read_pair : Found → Option (Text × Text) → Found
unfolding same_text trim parse_unsigned
read_pair f none = f
read_pair f (some (k, v)) =
    let key = trim k in
    if same_text key (codes "profile-level-id")
    then record f { profile_level_id = some (trim v) }
    else if same_text key (codes "sprop-parameter-sets")
    then record f { sprop = trim v }
    else if same_text key (codes "packetization-mode")
    then with_mode f (parse_unsigned (2 ^ 8 - 1) (trim v))
    else f

unfoldable pub read_pairs : Found → List Text → Found
unfolding read_pair split_once
read_pairs f [] = f
read_pairs f (kv ∷ kvs) = read_pairs (read_pair f (split_once b'=' kv)) kvs

abbrev as_params : ℕ → Found → Option Text → Option H264Params
as_params payload_type f none = none
as_params payload_type f (some pli) = some (record {
  profile_level_id = pli;
  sprop_parameter_sets = f.sprop;
  packetization_mode = f.packetization_mode;
  payload_type = payload_type;
})

abbrev by_payload_type : Option ℕ → Text → Option H264Params
by_payload_type none kv_part = none
by_payload_type (some payload_type) kv_part =
    let f =
      read_pairs (record { profile_level_id = none; sprop = []; packetization_mode = 1 })
        (split b';' kv_part) in
    as_params payload_type f f.profile_level_id

abbrev by_fmtp : Option (Text × Text) → Option H264Params
by_fmtp none = none
by_fmtp (some (pt, kv_part)) = by_payload_type (parse_unsigned (2 ^ 8 - 1) (trim pt)) kv_part

abbrev by_prefix : Option Text → Option H264Params
by_prefix none = none
by_prefix (some s) = by_fmtp (split_once b' ' s)

-- What one line gives; `none` is each of the `continue`s, and a line without the profile.
unfoldable pub read_line : Text → Option H264Params
unfolding read_pairs split split_once strip_prefix trim_end_matches trim parse_unsigned
read_line line = by_prefix (strip_prefix (codes "a=fmtp:") (trim_end_matches b'\r' line))

unfoldable pub first_params : List Text → Option H264Params
unfolding read_line
first_params [] = none
first_params (line ∷ lines) = elim (read_line line) [ none ↦ first_params lines | some p ↦ some p ]

unfoldable pub extract_h264_params : Text → Option H264Params
unfolding first_params without_last_empty split
extract_h264_params remote_sdp = first_params (without_last_empty (split b'\n' remote_sdp))
