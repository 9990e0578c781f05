-- ===== src/Prusa/Signaling/Engineio.antt =====
-- src/prusa/signaling/engineio.rs: the packets of the transport. The JSON of an OPEN packet is read by
-- a derived decoder, which is a parameter.
use buddy3d_proxy.Prelude.{ℕ, if◌then◌else◌, ◌==◌, List, [], ◌∷◌, take}
use buddy3d_proxy.Prelude.Text.{Text, codes}
use buddy3d_proxy.Prelude.Utf8.{char_width}
use buddy3d_proxy.Prelude.Results.{Result, success, failure, map_err, ◌>>=◌}

pub record OpenPayload : Type 0 where
  pub sid : Text
  pub upgrades : List Text
  pub ping_interval : ℕ
  pub ping_timeout : ℕ
  pub max_payload : ℕ

pub data TextPacket : Type 0 where
  open_packet : OpenPayload → TextPacket
  close : TextPacket
  ping : TextPacket
  pong : TextPacket
  message : Text → TextPacket
  noop : TextPacket

pub data ParseError : Type 0 where
  empty_frame : ParseError
  unknown_packet : Text → ParseError
  bad_open : Text → ParseError

-- A character in an error is its bytes.
unfoldable pub parse_text : (Text → Result Text OpenPayload) → Text → Result ParseError TextPacket
parse_text open_from_str [] = failure empty_frame
parse_text open_from_str (kind ∷ rest) =
    if kind == b'0'
    then map_err (open_from_str rest) bad_open >>= (λ wire. success (open_packet wire))
    else if kind == b'1'
    then success close
    else if kind == b'2'
    then success ping
    else if kind == b'3'
    then success pong
    else if kind == b'4'
    then success (message rest)
    else if kind == b'6'
    then success noop
    else failure (unknown_packet (take (char_width kind) (kind ∷ rest)))

unfoldable pub encode_pong : Text
encode_pong = codes "3"

unfoldable pub encode_message : Text → Text
encode_message payload = b'4' ∷ payload
