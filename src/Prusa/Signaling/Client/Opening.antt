-- ===== src/Prusa/Signaling/Client/Opening.antt =====
-- src/prusa/signaling/client.rs: the first frame of the transport.
use buddy3d_proxy.Prelude.{ℕ, ◌+◌, none, some}
use buddy3d_proxy.Prelude.Text.{Text}
use buddy3d_proxy.Prelude.Results.{Result, success, failure}
use buddy3d_proxy.Prusa.Signaling.Engineio as Engineio
use buddy3d_proxy.Prusa.Signaling.Engineio.{OpenPayload, TextPacket, open_packet}
use buddy3d_proxy.Prusa.Signaling.Client.{
  Received, ClientError, io, engine_io, missing_open, text_frame,
}

abbrev is_open : Result Engineio.ParseError TextPacket → Result ClientError OpenPayload
is_open (success (open_packet o)) = success o
is_open (success _) = failure missing_open
is_open (failure e) = failure (engine_io e)

-- The first frame has to open the transport.
unfoldable pub first_frame :
    (Text → Result Text OpenPayload) → Received → Result ClientError OpenPayload
unfolding Engineio.parse_text
first_frame open_from_str none = failure missing_open
first_frame open_from_str (some (failure e)) = failure (io e)
first_frame open_from_str (some (success (text_frame t))) =
    is_open (Engineio.parse_text open_from_str t)
first_frame open_from_str (some (success _)) = failure missing_open

-- How long the driver waits for traffic, in milliseconds
unfoldable pub ping_timeout : OpenPayload → ℕ
ping_timeout wire = wire.ping_interval + 5000
