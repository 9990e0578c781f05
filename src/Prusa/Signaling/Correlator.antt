-- ===== src/Prusa/Signaling/Correlator.antt =====
-- src/prusa/signaling/socketio.rs: the correlator, which puts a binary event together from its header
-- and the frames behind it. A hash map is a list of pairs with different keys.
pub mod Spec
pub mod Received
pub mod Counted
pub mod Refined
pub mod RoundTrip
mod Examples
use mathlib.Core.Option as Option
use buddy3d_proxy.Prelude.{
  ℕ, zero, suc, ◌+◌, ◌%◌, ◌^◌, leb, if◌then◌else◌, ◌==◌, Option, none, some, List, [], ◌∷◌, length,
}
use buddy3d_proxy.Prelude.Text.{Text}
use buddy3d_proxy.Prelude.Results.{Result, success, failure}
use buddy3d_proxy.Prusa.Signaling.Json.{Json}
use buddy3d_proxy.Prusa.Signaling.Socketio.{
  ParseError, TextPacket, connect, disconnect, event, ack, binary_event_header, Event, text_event,
  binary_event, connected_event, disconnected_event, ack_event, parse_text,
}

-- A hash map from numbers to payloads
unfoldable pub insert : ℕ → Text → List (ℕ × Text) → List (ℕ × Text)
insert k v [] = (k, v) ∷ []
insert k v ((k', v') ∷ rest) =
    let further = insert k v rest in if k' == k then (k, v) ∷ rest else (k', v') ∷ further

unfoldable pub lookup : ℕ → List (ℕ × Text) → Option Text
lookup k [] = none
lookup k ((k', v) ∷ rest) = let further = lookup k rest in if k' == k then some v else further

pub record PendingBinaryEvent : Type 0 where
  pub name : Text
  pub expected : ℕ
  pub received : List (ℕ × Text)

pub record Correlator : Type 0 where
  pub pending : Option PendingBinaryEvent

unfoldable pub new : Correlator
new = record { pending = none }

pub data CorrelatorError : Type 0 where
  parse_error : ParseError → CorrelatorError
  unexpected_binary : CorrelatorError
  interleaved_text : ℕ → ℕ → CorrelatorError
  too_many_binaries : ℕ → ℕ → CorrelatorError

-- The frames that arrive, in their order
pub data Frame : Type 0 where
  text : Text → Frame
  binary : Text → Frame

-- What a frame gives: an event, nothing yet, or an error.
abbrev pub FeedResult : Type 0 → Type 0
FeedResult Value = Result CorrelatorError (Option (Event Value))

-- `received.len() as u32`
abbrev pub count : PendingBinaryEvent → ℕ
count p = length p.received % 2 ^ 32

-- The payloads from number `i` on; a missing one is empty.
unfoldable pub attachments_from : List (ℕ × Text) → ℕ → ℕ → List Text
unfolding lookup
attachments_from received i zero = []
attachments_from received i (suc n) =
    Option.get_or (lookup i received) [] ∷ attachments_from received (i + 1) n

module _ {Value : Type 0} where
  unfoldable pub deliver :
      Correlator → Result ParseError (TextPacket Value) → Correlator × FeedResult Value
  deliver c (failure e) = (c, failure (parse_error e))
  deliver c (success (connect auth)) = (c, success (some (connected_event auth)))
  deliver c (success disconnect) = (c, success (some disconnected_event))
  deliver c (success (event id name args)) = (c, success (some (text_event name args)))
  deliver c (success (ack id args)) = (c, success (some (ack_event id args)))
  deliver c (success (binary_event_header attachment_count id name placeholders)) =
      if attachment_count == 0 then (c, success (some (binary_event name []))) else (
        record {
          pending = some (record { name = name; expected = attachment_count; received = [] });
        },
        success none,
      )

  unfoldable pub feed_packet :
      Correlator → Result ParseError (TextPacket Value) → Correlator × FeedResult Value
  unfolding deliver
  feed_packet c packet = elim c.pending [
    | some p ↦ (c, failure (interleaved_text (count p) p.expected))
    | none ↦ deliver c packet
  ]

  -- The payload is stored; the last one completes the event.
  unfoldable pub store : PendingBinaryEvent → Text → Correlator × FeedResult Value
  unfolding insert attachments_from
  store p payload =
      let received = insert (count p) payload p.received in
      if length received % 2 ^ 32 == p.expected
      then (
        record { pending = none },
        success (some (binary_event p.name (attachments_from received 0 p.expected))),
      )
      else (record { pending = some (record p { received = received }) }, success none)

  unfoldable pub feed_binary : Correlator → Text → Correlator × FeedResult Value
  unfolding store
  feed_binary c payload = elim c.pending [
    | none ↦ (c, failure unexpected_binary)
    | some p ↦
        if leb p.expected (count p)
        then (c, failure (too_many_binaries ((count p + 1) % 2 ^ 32) p.expected))
        else store p payload
  ]

  unfoldable pub feed_text : Json Value → Correlator → Text → Correlator × FeedResult Value
  unfolding feed_packet parse_text
  feed_text json c frame = feed_packet c (parse_text json frame)

  unfoldable pub feed : Json Value → Correlator → Frame → Correlator × FeedResult Value
  unfolding feed_text feed_binary
  feed json c (text frame) = feed_text json c frame
  feed json c (binary payload) = feed_binary c payload

  unfoldable pub feed_all : Json Value → Correlator → List Frame → List (FeedResult Value)
  feed_all json c [] = []
  feed_all json c (frame ∷ frames) =
      let (c', outcome) = feed json c frame in outcome ∷ feed_all json c' frames
