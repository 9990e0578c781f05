-- ===== src/Rtsp/Forward/Received.antt =====
-- src/rtsp/server.rs: what a viewer reads while packets are forwarded.
use buddy3d_proxy.Prelude.{
  ℕ, zero, suc, ◌≤◌, ◌≡◌, refl, ◌∙◌, ap, some, List, [], ◌∷◌, ◌++◌, length, All, append-nil,
  append_assoc, arith, leb, ◌/◌, ◌%◌, true,
}
use buddy3d_proxy.Media.RtpHeader.{header_to_bytes}
use buddy3d_proxy.Media.Interleaved.{max_frame_payload, encode_frame}
use buddy3d_proxy.Media.Interleaved.Laws.{wire, read_frames, read_frames-wire, Fits}
use buddy3d_proxy.Rtsp.Forward.{ForwardEvent, packet, lagged, closed, inbound, forward_rtp}

-- The packets up to the end of the channel or of the client, each in its frame.
abbrev pub packets : ℕ → List ForwardEvent → List (ℕ × List ℕ)
packets channel [] = []
packets channel (packet header payload ∷ events) =
    (channel, header_to_bytes header ++ payload) ∷ packets channel events
packets channel (lagged n ∷ events) = packets channel events
packets channel (closed ∷ events) = []
packets channel (inbound zero ∷ events) = []
packets channel (inbound (suc n) ∷ events) = packets channel events

encode_frame-fits :
    (channel : ℕ) (payload : List ℕ)
    → length payload ≤ max_frame_payload
    → encode_frame [] channel payload
      ≡ some (b'$' ∷ channel ∷ (length payload / 256) ∷ (length payload % 256) ∷ payload)
unfolding encode_frame
encode_frame-fits channel payload h =
    let b : leb (length payload) max_frame_payload ≡ true = ground (arith, h) in rw (b) refl

forward_rtp-wire :
    (channel : ℕ) (written : List ℕ) (events : List ForwardEvent)
    → All Fits (packets channel events)
    → forward_rtp channel written events ≡ some (written ++ wire (packets channel events))
unfolding forward_rtp
forward_rtp-wire channel written [] h = rw append-nil refl
forward_rtp-wire channel written (packet header payload ∷ events) (h, hs) =
    let bytes = header_to_bytes header ++ payload in
    let frame = b'$' ∷ channel ∷ (length bytes / 256) ∷ (length bytes % 256) ∷ bytes in
    rw (encode_frame-fits channel bytes h, forward_rtp)
      (forward_rtp-wire channel (written ++ frame) events hs
        ∙ ap some (append_assoc written frame (wire (packets channel events))))
forward_rtp-wire channel written (lagged n ∷ events) h = forward_rtp-wire channel written events h
forward_rtp-wire channel written (closed ∷ events) h = rw append-nil refl
forward_rtp-wire channel written (inbound zero ∷ events) h = rw append-nil refl
forward_rtp-wire channel written (inbound (suc n) ∷ events) h =
    forward_rtp-wire channel written events h

-- A viewer reads back every packet that came before the channel or the client ended, in order, each
-- in a frame on the session's channel, whatever it sent or missed in between. No packet is longer than
-- a frame holds.
pub read_frames-forward_rtp :
    (channel : ℕ) (events : List ForwardEvent)
    → All Fits (packets channel events)
    → (bytes : List ℕ) × (forward_rtp channel [] events ≡ some bytes)
      × (read_frames (length bytes) bytes ≡ some (packets channel events))
read_frames-forward_rtp channel events h =
    let frames = packets channel events in
    (
      wire frames,
      forward_rtp-wire channel [] events h,
      read_frames-wire frames (length (wire frames)) h (omega arith),
    )
