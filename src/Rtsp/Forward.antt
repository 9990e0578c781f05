-- ===== src/Rtsp/Forward.antt =====
-- src/rtsp/server.rs, `forward_rtp`: the packets that a viewer gets. An event is what the `select`
-- gives: a packet, a note that the viewer was too slow, the end of the channel, or a read of so many
-- bytes from the client, of which none is the end and an error. A write succeeds.
pub mod Received
mod Examples
use buddy3d_proxy.Prelude.{ℕ, zero, suc, Option, none, some, List, [], ◌∷◌, ◌++◌}
use buddy3d_proxy.Media.RtpHeader.{Header, header_to_bytes}
use buddy3d_proxy.Media.Interleaved.{encode_frame}

pub data ForwardEvent : Type 0 where
  packet : Header → List ℕ → ForwardEvent
  lagged : ℕ → ForwardEvent
  closed : ForwardEvent
  inbound : ℕ → ForwardEvent

-- What has been written when the loop ends or waits; `none` is a panic.
unfoldable pub forward_rtp : ℕ → List ℕ → List ForwardEvent → Option (List ℕ)
forward_rtp channel written [] = some written
forward_rtp channel written (packet header payload ∷ events) =
    elim (encode_frame [] channel (header_to_bytes header ++ payload)) [
      | none ↦ none
      | some frame ↦ forward_rtp channel (written ++ frame) events
    ]
forward_rtp channel written (lagged n ∷ events) = forward_rtp channel written events
forward_rtp channel written (closed ∷ events) = some written
forward_rtp channel written (inbound zero ∷ events) = some written
forward_rtp channel written (inbound (suc n) ∷ events) = forward_rtp channel written events
