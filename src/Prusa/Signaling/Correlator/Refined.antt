-- ===== src/Prusa/Signaling/Correlator/Refined.antt =====
-- src/prusa/signaling/socketio.rs: the correlator does what its specification says.
use buddy3d_proxy.Prelude.{
  ℕ, ◌^◌, ◌%◌, ◌<◌, ◌≡◌, refl, sym, ap, false, ◌==◌, leb, some, none, List, [], ◌∷◌, ◌++◌, length,
  Bool-cases, inl, inr, arith, length-append,
}
use buddy3d_proxy.Prelude.Text.{Text}
use buddy3d_proxy.Prelude.Results.{Result, success, failure}
use buddy3d_proxy.Prusa.Signaling.Json.{Json}
use buddy3d_proxy.Prusa.Signaling.Socketio.{
  ParseError, TextPacket, connect, disconnect, event, ack, binary_event_header, parse_text,
}
use buddy3d_proxy.Prusa.Signaling.Correlator.{
  Correlator, Frame, text, binary, feed_packet, feed_text, store, feed_binary, feed, feed_all, new,
  deliver,
}
use buddy3d_proxy.Prusa.Signaling.Correlator.Spec.{
  Phase, idle, collecting, opened, next, next_all, IsOpen,
}
use buddy3d_proxy.Prusa.Signaling.Correlator.Received.{
  numbered, length-numbered, insert-last, attachments_from-all,
}
use buddy3d_proxy.Prusa.Signaling.Correlator.Counted.{IsCounted, parse_text-IsCounted}

-- The state of the code for a phase.
abbrev pub concrete : Phase → Correlator
concrete idle = record { pending = none }
concrete (collecting name n got) = record {
  pending = some (record { name = name; expected = n; received = numbered 0 got });
}

abbrev represent {ℓ} : {A : Type ℓ} → Phase × A → Correlator × A
represent (phase, outcome) = (concrete phase, outcome)

length-numbered_word :
    (got : List Text) → length got < 2 ^ 32 → length (numbered 0 got) % 2 ^ 32 ≡ length got
length-numbered_word got h = omega (arith, h, length-numbered 0 got)

module _ {Value : Type 0} where
  deliver-opened :
      (r : Result ParseError (TextPacket Value)) → deliver (concrete idle) r ≡ represent (opened r)
  unfolding deliver opened numbered
  deliver-opened (failure e) = refl
  deliver-opened (success (connect auth)) = refl
  deliver-opened (success disconnect) = refl
  deliver-opened (success (event id name args)) = refl
  deliver-opened (success (ack id args)) = refl
  deliver-opened (success (binary_event_header n id name placeholders)) =
      elim (Bool-cases (n == 0)) [ inl e ↦ rw (e) refl | inr e ↦ rw (e) refl ]

  opened-IsOpen : (r : Result ParseError (TextPacket Value)) → IsCounted r → IsOpen (opened r).0
  unfolding opened
  opened-IsOpen (failure e) h = tt
  opened-IsOpen (success (connect auth)) h = tt
  opened-IsOpen (success disconnect) h = tt
  opened-IsOpen (success (event id name args)) h = tt
  opened-IsOpen (success (ack id args)) h = tt
  opened-IsOpen (success (binary_event_header n id name placeholders)) h =
      elim (Bool-cases (n == 0)) [ inl e ↦ rw (e) tt | inr e ↦ rw (e) (ground (arith, e), h) ]

  store-next :
      (json : Json Value) (name : Text) (n : ℕ) (got : List Text) (payload : Text)
      → length got < n
      → n < 2 ^ 32
      → feed_binary (concrete (collecting name n got)) payload
        ≡ represent (next json (collecting name n got) (binary payload))
  unfolding feed_binary store next
  store-next json name n got payload h h' =
      let all = got ++ (payload ∷ []) in
      let counted = length-numbered_word got (omega (arith, h, h')) in
      let open_yet : leb n (length got) ≡ false = ground (arith, h) in
      let recounted =
        length-numbered_word all (omega (arith, h, h', length-append got (payload ∷ []))) in
      rw (counted, open_yet, insert-last got payload, recounted)
        (elim (Bool-cases (length all == n)) [
          | inl e ↦
              let full : length all ≡ n = ground (arith, e) in
              rw (e, sym full, attachments_from-all all) refl
          | inr e ↦ rw (e) refl
        ])

  next-IsOpen :
      (json : Json Value) (phase : Phase) (frame : Frame)
      → IsOpen phase
      → IsOpen (next json phase frame).0
  unfolding next
  next-IsOpen json idle (text s) h = opened-IsOpen (parse_text json s) (parse_text-IsCounted json s)
  next-IsOpen json idle (binary payload) h = tt
  next-IsOpen json (collecting name n got) (text s) h = h
  next-IsOpen json (collecting name n got) (binary payload) h =
      elim (Bool-cases (length (got ++ (payload ∷ [])) == n)) [
        | inl e ↦ rw (e) tt
        | inr e ↦ rw (e) (ground (arith, e, h.0, length-append got (payload ∷ [])), h.1)
      ]

  feed-next :
      (json : Json Value) (phase : Phase) (frame : Frame)
      → IsOpen phase
      → feed json (concrete phase) frame ≡ represent (next json phase frame)
  unfolding feed next feed_text feed_packet feed_binary
  feed-next json idle (text s) h = deliver-opened (parse_text json s)
  feed-next json idle (binary payload) h = refl
  feed-next json (collecting name n got) (text s) h =
      rw (length-numbered_word got (omega (arith, h.0, h.1))) refl
  feed-next json (collecting name n got) (binary payload) h =
      store-next json name n got payload h.0 h.1

  feed_all-next_all :
      (json : Json Value) (phase : Phase) (frames : List Frame)
      → IsOpen phase
      → feed_all json (concrete phase) frames ≡ next_all json phase frames
  unfolding feed_all next_all
  feed_all-next_all json phase [] h = refl
  feed_all-next_all json phase (frame ∷ frames) h = rw (feed-next json phase frame h) (
      ap (◌∷◌ (next json phase frame).1)
        (feed_all-next_all json (next json phase frame).0 frames (next-IsOpen json phase frame h)))

-- The events and errors that the correlator gives for any frames in any order are those of the
-- specification, which keeps the payloads of one event in a list in the order of their arrival: so an
-- event is delivered with all its payloads in order, exactly with its last one, and the errors are
-- a frame that cannot be read, a payload without a header, and a text between the payloads of an
-- event.
pub feed_all-new :
    {Value : Type 0} (json : Json Value) (frames : List Frame)
    → feed_all json new frames ≡ next_all json idle frames
unfolding new
feed_all-new json frames = feed_all-next_all json idle frames tt
