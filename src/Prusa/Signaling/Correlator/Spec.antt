-- ===== src/Prusa/Signaling/Correlator/Spec.antt =====
-- What the correlator promises: it is idle, or it collects the payloads of one event in their order.
use buddy3d_proxy.Prelude.{
  ℕ, ◌^◌, ◌<◌, if◌then◌else◌, ◌==◌, none, some, List, [], ◌∷◌, ◌++◌, length,
}
use buddy3d_proxy.Prelude.Text.{Text}
use buddy3d_proxy.Prelude.Results.{Result, success, failure}
use buddy3d_proxy.Prusa.Signaling.Json.{Json}
use buddy3d_proxy.Prusa.Signaling.Socketio.{
  ParseError, TextPacket, connect, disconnect, event, ack, binary_event_header, text_event,
  binary_event, connected_event, disconnected_event, ack_event, parse_text,
}
use buddy3d_proxy.Prusa.Signaling.Correlator.{
  FeedResult, Frame, text, binary, parse_error, unexpected_binary, interleaved_text,
}

pub data Phase : Type 0 where
  idle : Phase
  collecting : Text → ℕ → List Text → Phase

module _ {Value : Type 0} where
  unfoldable pub opened : Result ParseError (TextPacket Value) → Phase × FeedResult Value
  opened (failure e) = (idle, failure (parse_error e))
  opened (success (connect auth)) = (idle, success (some (connected_event auth)))
  opened (success disconnect) = (idle, success (some disconnected_event))
  opened (success (event id name args)) = (idle, success (some (text_event name args)))
  opened (success (ack id args)) = (idle, success (some (ack_event id args)))
  opened (success (binary_event_header n id name placeholders)) =
      if n == 0
      then (idle, success (some (binary_event name [])))
      else (collecting name n [], success none)

  unfoldable pub next : Json Value → Phase → Frame → Phase × FeedResult Value
  unfolding opened parse_text
  next json idle (text frame) = opened (parse_text json frame)
  next json idle (binary payload) = (idle, failure unexpected_binary)
  next json (collecting name n got) (text frame) =
      (collecting name n got, failure (interleaved_text (length got) n))
  next json (collecting name n got) (binary payload) =
      let all = got ++ (payload ∷ []) in
      if length all == n
      then (idle, success (some (binary_event name all)))
      else (collecting name n all, success none)

  unfoldable pub next_all : Json Value → Phase → List Frame → List (FeedResult Value)
  next_all json phase [] = []
  next_all json phase (frame ∷ frames) =
      let (phase', outcome) = next json phase frame in outcome ∷ next_all json phase' frames

-- What holds of every phase: payloads are missing, and their number has 32 bits.
abbrev pub IsOpen : Phase → Type 0
IsOpen idle = Unit {0}
IsOpen (collecting name n got) = (length got < n) × (n < 2 ^ 32)
