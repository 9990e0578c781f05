-- ===== src/Prusa/Signaling/Client.antt =====
-- src/prusa/signaling/client.rs: the task that drives the WebSocket. One turn of its loop handles what
-- the select picks; the caller says what that is, and how many frames the socket takes before a
-- write fails.
pub mod Opening
pub mod Received
mod Examples
use buddy3d_proxy.Prelude.{
  ℕ, ◌+◌, ◌%◌, ◌^◌, leb, if◌then◌else◌, Bool, true, false, Option, none, some, List, [], ◌∷◌, ◌++◌,
  length, take,
}
use buddy3d_proxy.Prelude.Text.{Text, codes}
use buddy3d_proxy.Prelude.Results.{Result, success, failure}
use buddy3d_proxy.Prusa.Signaling.Json.{Json}
use buddy3d_proxy.Prusa.Signaling.Engineio.{
  OpenPayload, TextPacket, open_packet, ping, message, encode_pong, encode_message, close, pong,
  noop,
}
use buddy3d_proxy.Prusa.Signaling.Engineio as Engineio
use buddy3d_proxy.Prusa.Signaling.Socketio.{
  and_then, encode_connect, encode_binary_event, Event, text_event, binary_event, connected_event,
  disconnected_event, ack_event,
}
use buddy3d_proxy.Prusa.Signaling.Correlator.{
  Correlator, CorrelatorError, FeedResult, feed_text, feed_binary, new,
}

pub data Outbound (Value : Type 0) : Type 0 where
  connect : Value → Outbound Value
  outbound_event : Text → Text → Bool → Outbound Value

pub data Inbound (Value : Type 0) : Type 0 where
  connected : Option Text → Inbound Value
  disconnected : Inbound Value
  inbound_event : Text → Text → Inbound Value
  ack : ℕ → List Value → Inbound Value
  transport_closed : Text → Inbound Value

-- A frame of the WebSocket
pub data Message : Type 0 where
  text_frame : Text → Message
  binary_frame : Text → Message
  close_frame : Message
  other_frame : Message

pub data ClientError : Type 0 where
  connect_failed : Text → ClientError
  io : Text → ClientError
  engine_io : Engineio.ParseError → ClientError
  socket_io : CorrelatorError → ClientError
  missing_open : ClientError
  closed : Text → ClientError

-- What the stream gives, if it has not ended.
abbrev pub Received : Type 0
Received = Option (Result Text Message)

pub record Driver : Type 0 where
  pub correlator : Correlator
  pub next_ack_id : ℕ

unfoldable pub start_driver : Driver
unfolding new
start_driver = record { correlator = new; next_ack_id = 0 }

pub data Selected (Value : Type 0) : Type 0 where
  received : Received → Selected Value
  submitted : Option (Outbound Value) → Selected Value
  timed_out : Selected Value
  inbound_closed : Selected Value

-- What a turn does: the driver that goes on, unless the task ends, the frames that are written,
-- what is delivered, and whether the timer starts again.
pub record Turn (Value : Type 0) : Type 0 where
  pub driver : Option Driver
  pub written : List Message
  pub delivered : List (Inbound Value)
  pub timer_reset : Bool

-- The id of an acknowledgement, if one is expected, and the driver that has given it out.
unfoldable pub take_ack_id : Driver → Bool → Driver × Option ℕ
take_ack_id d true = (record d { next_ack_id = (d.next_ack_id + 1) % 2 ^ 64 }, some d.next_ack_id)
take_ack_id d false = (d, none)

abbrev first_attachment : List Text → Text
first_attachment [] = []
first_attachment (payload ∷ rest) = payload

module _ {Value : Type 0} where
  abbrev going_on : Driver → List (Inbound Value) → Bool → Turn Value
  going_on d delivered reset = record {
    driver = some d;
    written = [];
    delivered = delivered;
    timer_reset = reset;
  }

  abbrev ended : List (Inbound Value) → Bool → Turn Value
  ended delivered reset = record {
    driver = none;
    written = [];
    delivered = delivered;
    timer_reset = reset;
  }

  -- Frames go out until the socket fails.
  unfoldable pub write_frames : Driver → List Message → ℕ → Text → Bool → Turn Value
  write_frames d frames accepted reason reset =
      if leb (length frames) accepted
      then record { driver = some d; written = frames; delivered = []; timer_reset = reset }
      else record {
        driver = none;
        written = take accepted frames;
        delivered = transport_closed reason ∷ [];
        timer_reset = reset;
      }

module _ {Value : Type 0} (json : Json Value) where
  abbrev sid_of : Option Value → Option Text
  sid_of auth = and_then (and_then auth (λ v. json.get v (codes "sid"))) json.as_str

  -- What is delivered for an event of the correlator; an error and a text event are only logged.
  unfoldable pub deliver_text : FeedResult Value → List (Inbound Value)
  deliver_text (success (some (connected_event auth))) = connected (sid_of auth) ∷ []
  deliver_text (success (some disconnected_event)) = disconnected ∷ []
  deliver_text (success (some (ack_event id args))) = ack id args ∷ []
  deliver_text (success (some (binary_event name attachments))) =
      inbound_event name (first_attachment attachments) ∷ []
  deliver_text (success (some (text_event name args))) = []
  deliver_text (success none) = []
  deliver_text (failure e) = []

  -- Behind a binary frame only a binary event is delivered.
  unfoldable pub deliver_binary : FeedResult Value → List (Inbound Value)
  deliver_binary (success (some (binary_event name attachments))) =
      inbound_event name (first_attachment attachments) ∷ []
  deliver_binary _ = []

  abbrev text_outcome : Driver → Correlator × FeedResult Value → Turn Value
  text_outcome d (c, outcome) = going_on (record d { correlator = c }) (deliver_text outcome) true

  abbrev binary_outcome : Driver → Correlator × FeedResult Value → Turn Value
  binary_outcome d (c, outcome) =
      going_on (record d { correlator = c }) (deliver_binary outcome) true

  unfoldable pub handle_text : Driver → Result Engineio.ParseError TextPacket → ℕ → Turn Value
  unfolding write_frames deliver_text feed_text
  handle_text d (success ping) accepted =
      write_frames d (text_frame encode_pong ∷ []) accepted (codes "write ping reply failed") true
  handle_text d (success (message payload)) accepted =
      text_outcome d (feed_text json d.correlator payload)
  handle_text d (success close) accepted = going_on d [] true
  handle_text d (success pong) accepted = going_on d [] true
  handle_text d (success (open_packet o)) accepted = going_on d [] true
  handle_text d (success noop) accepted = going_on d [] true
  handle_text d (failure e) accepted = going_on d [] true

  unfoldable pub handle_received :
      (Text → Result Text OpenPayload) → Driver → Received → ℕ → Turn Value
  unfolding handle_text deliver_binary feed_binary Engineio.parse_text
  handle_received open_from_str d none accepted =
      ended (transport_closed (codes "stream end") ∷ []) false
  handle_received open_from_str d (some (failure e)) accepted =
      ended (transport_closed e ∷ []) false
  handle_received open_from_str d (some (success (text_frame t))) accepted =
      handle_text d (Engineio.parse_text open_from_str t) accepted
  handle_received open_from_str d (some (success (binary_frame b))) accepted =
      binary_outcome d (feed_binary d.correlator b)
  handle_received open_from_str d (some (success close_frame)) accepted =
      ended (transport_closed (codes "close frame") ∷ []) false
  handle_received open_from_str d (some (success other_frame)) accepted = going_on d [] false

  unfoldable pub frames_of : Driver → Outbound Value → Driver × List Message
  unfolding take_ack_id encode_connect encode_binary_event encode_message
  frames_of d (connect auth) = (d, text_frame (encode_message (encode_connect json auth)) ∷ [])
  frames_of d (outbound_event name payload expect_ack) =
      let (d', ack_id) = take_ack_id d expect_ack in
      (
        d',
        text_frame (encode_message (encode_binary_event json name 1 ack_id))
            ∷ binary_frame payload
            ∷ [],
      )

  unfoldable pub handle_submitted : Driver → Option (Outbound Value) → ℕ → Turn Value
  unfolding frames_of write_frames
  handle_submitted d none accepted = ended [] false
  handle_submitted d (some out) accepted =
      let (d', frames) = frames_of d out in
      write_frames d' frames accepted (codes "write failed") false

  -- One turn of the select
  unfoldable pub drive : (Text → Result Text OpenPayload) → Driver → Selected Value → ℕ → Turn Value
  unfolding handle_received handle_submitted
  drive open_from_str d (received r) accepted = handle_received open_from_str d r accepted
  drive open_from_str d (submitted out) accepted = handle_submitted d out accepted
  drive open_from_str d timed_out accepted =
      ended (transport_closed (codes "server ping timeout") ∷ []) false
  drive open_from_str d inbound_closed accepted = ended [] false

  -- The frames and events of a turn stand in front of those of the turns behind it.
  abbrev in_front : Turn Value → Turn Value → Turn Value
  in_front t rest = record rest {
    written = t.written ++ rest.written;
    delivered = t.delivered ++ rest.delivered;
  }

  -- The loop, on what the select picks turn by turn, until the task ends.
  unfoldable pub run :
      (Text → Result Text OpenPayload) → Driver → List (Selected Value × ℕ) → Turn Value
  unfolding drive
  run open_from_str d [] = going_on d [] false
  run open_from_str d ((s, accepted) ∷ rest) =
      let t = drive open_from_str d s accepted in
      elim t.driver [ none ↦ t | some d' ↦ in_front t (run open_from_str d' rest) ]
