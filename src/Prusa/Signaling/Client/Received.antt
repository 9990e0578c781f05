-- ===== src/Prusa/Signaling/Client/Received.antt =====
-- src/prusa/signaling/client.rs: an event that one driver writes is the event that another delivers.
use buddy3d_proxy.Prelude.{
  ℕ, ◌-◌, ◌^◌, ◌<◌, ◌≤◌, leb, ◌≡◌, refl, Bool, true, false, some, List, [], ◌∷◌, map, arith,
}
use buddy3d_proxy.Prelude.Text.{Text}
use buddy3d_proxy.Prelude.Decimal.RoundTrip.{IsWithin}
use buddy3d_proxy.Prelude.Results.{Result, success}
use buddy3d_proxy.Prusa.Signaling.Json.{Json}
use buddy3d_proxy.Prusa.Signaling.Engineio as Engineio
use buddy3d_proxy.Prusa.Signaling.Engineio.{OpenPayload, encode_message}
use buddy3d_proxy.Prusa.Signaling.Correlator.{
  new, feed_text, feed_packet, feed_binary, deliver, store, insert, attachments_from,
}
use buddy3d_proxy.Prusa.Signaling.Correlator.RoundTrip.{IsReadBack, parse_text-encode_binary_event}
use buddy3d_proxy.Prusa.Signaling.Client.{
  outbound_event, inbound_event, Message, text_frame, binary_frame, Turn, Driver, Selected,
  received, submitted, drive, run, handle_received, handle_text, handle_submitted, frames_of,
  take_ack_id, write_frames, deliver_text, deliver_binary,
}

-- The frames as they arrive; nothing is written for them.
abbrev pub arrivals : {Value : Type 0} → List Message → List (Selected Value × ℕ)
arrivals frames = map (λ f. (received (some (success f)), 0)) frames

take_ack_id-IsWithin :
    (d : Driver) (e : Bool) → d.next_ack_id < 2 ^ 64 → IsWithin (2 ^ 64 - 1) (take_ack_id d e).1
unfolding take_ack_id
take_ack_id-IsWithin d true h = omega (arith, h)
take_ack_id-IsWithin d false h = tt

module _ {Value : Type 0} (json : Json Value) (open_from_str : Text → Result Text OpenPayload) where
  -- A driver that takes an event for a socket that accepts two frames or more writes exactly two, a text
  -- frame and the payload as a binary frame, and goes on; and a driver whose correlator waits for
  -- nothing delivers for the written frames exactly one event, with this name and payload. The
  -- sender's next id is within 64 bits, and serde_json reads back the array of the event.
  pub run-drive :
      (sender receiver : Driver) (name payload : Text) (expect_ack : Bool) (accepted : ℕ)
      → 2 ≤ accepted
      → sender.next_ack_id < 2 ^ 64
      → receiver.correlator ≡ new
      → IsReadBack json name 1
      → let t : Turn Value =
          drive json open_from_str sender
            (submitted (some (outbound_event name payload expect_ack)))
            accepted in
        ((header : Text) × (t.written ≡ text_frame header ∷ binary_frame payload ∷ []))
        × (t.driver ≡ some (take_ack_id sender expect_ack).0)
        × ((run json open_from_str receiver (arrivals t.written)).delivered
            ≡ inbound_event name payload ∷ [])
  unfolding run drive handle_submitted frames_of write_frames handle_received handle_text
      encode_message Engineio.parse_text feed_text feed_packet deliver feed_binary store insert
      attachments_from deliver_text deliver_binary new
  run-drive sender receiver name payload expect_ack accepted two h e r =
      let id = (take_ack_id sender expect_ack).1 in
      let parsed =
        parse_text-encode_binary_event json name 1 id (omega arith)
          (take_ack_id-IsWithin sender expect_ack h) r in
      let goes_out : leb 2 accepted ≡ true = ground (arith, two) in
      rw (goes_out) ((_, refl), refl, rw (e, parsed) refl)
