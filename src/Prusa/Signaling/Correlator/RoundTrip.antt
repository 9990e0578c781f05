-- ===== src/Prusa/Signaling/Correlator/RoundTrip.antt =====
-- src/prusa/signaling/socketio.rs: what the correlator makes of an event that `encode_binary_event`
-- wrote. What is asked of serde_json is that it reads back the one array that is written.
use buddy3d_proxy.Prelude.{
  ℕ, zero, suc, ◌+◌, ◌-◌, ◌^◌, ◌<◌, ◌≡◌, ◌≢◌, refl, ap, ◌∙◌, true, false, ◌==◌, Option, some, none,
  List, [], ◌∷◌, ◌++◌, length, map, All, arith, length-append, append_assoc,
}
use buddy3d_proxy.Prelude.Text.{Text, split_once, before, is_empty}
use buddy3d_proxy.Prelude.Decimal.{to_text}
use buddy3d_proxy.Prelude.Decimal.RoundTrip.{
  IsWithin, IsDigit, to_text-IsDigit, to_text-nonempty, parse_unsigned-to_text,
}
use buddy3d_proxy.Prelude.Results.{success}
use buddy3d_proxy.Prusa.Signaling.Json.{Json}
use buddy3d_proxy.Prusa.Signaling.Socketio.{
  binary_event_header, filter_map, leading_digits, split_optional_id, event_name, placeholder_num,
  placeholders_from, event_args, encode_binary_event, parse_binary_header, parse_text, binary_event,
}
use buddy3d_proxy.Prusa.Signaling.Correlator.{FeedResult, text, binary, feed_all, new}
use buddy3d_proxy.Prusa.Signaling.Correlator.Spec.{idle, collecting, opened, next, next_all}
use buddy3d_proxy.Prusa.Signaling.Correlator.Refined.{feed_all-new}

leading_digits-append :
    (digits : Text) (b : ℕ) (rest : Text)
    → All IsDigit digits
    → b'9' < b
    → leading_digits (digits ++ (b ∷ rest)) ≡ (digits, b ∷ rest)
unfolding leading_digits
leading_digits-append [] b rest h h' = ground (arith, h')
leading_digits-append (d ∷ digits) b rest h h' =
    rw (leading_digits-append digits b rest h.1 h') (ground (arith, h))

split_once-digits :
    (digits rest : Text)
    → All IsDigit digits
    → split_once b'-' (digits ++ (b'-' ∷ rest)) ≡ some (digits, rest)
unfolding split_once
split_once-digits [] rest h = refl
split_once-digits (d ∷ digits) rest h =
    let other : (d == b'-') ≡ false = ground (arith, h) in
    rw (other) (ap (before d) (split_once-digits digits rest h.1))

is_empty-nonempty : (s : Text) → s ≢ [] → is_empty s ≡ false
is_empty-nonempty [] h = absurd (h refl)
is_empty-nonempty (b ∷ s) h = refl

abbrev id_text : Option ℕ → Text
id_text none = []
id_text (some id) = to_text id

split_optional_id-append :
    (id : Option ℕ) (more : Text)
    → IsWithin (2 ^ 64 - 1) id
    → split_optional_id (id_text id ++ (b'[' ∷ more)) ≡ (id, b'[' ∷ more)
unfolding split_optional_id
split_optional_id-append none more h = ground arith
split_optional_id-append (some id) more h =
    rw
      (
        leading_digits-append (to_text id) b'[' more (to_text-IsDigit id) (omega arith),
        is_empty-nonempty (to_text id) (to_text-nonempty id),
        parse_unsigned-to_text (2 ^ 64 - 1) id h (omega (arith, h)),
      )
      refl

module _ {Value : Type 0} (json : Json Value) where
  -- What serde_json does with the array of an event: it is written as text that begins with a
  -- bracket, which is read back, and the name comes out of its value.
  pub record IsReadBack (name : Text) (n : ℕ) : Type 0 where
    pub more : Text
    pub bracket : json.array_to_string (event_args json name n) ≡ b'[' ∷ more
    pub array : json.array_from_str (b'[' ∷ more) ≡ success (event_args json name n)
    pub named : json.as_str (json.string name) ≡ some name

  pub parse_text-encode_binary_event :
      (name : Text) (n : ℕ) (id : Option ℕ)
      → n < 2 ^ 32
      → IsWithin (2 ^ 64 - 1) id
      → IsReadBack name n
      → parse_text json (encode_binary_event json name n id)
        ≡ success (
            binary_event_header n id name
              (filter_map (placeholder_num json) (placeholders_from json 0 n)))
  unfolding parse_text encode_binary_event parse_binary_header event_args event_name
  parse_text-encode_binary_event name n id h h' r =
      rw
        (
          r.bracket,
          split_once-digits (to_text n) (id_text id ++ (b'[' ∷ r.more)) (to_text-IsDigit n),
          parse_unsigned-to_text (2 ^ 32 - 1) n (omega (arith, h)) (omega (arith, h)),
          split_optional_id-append id r.more h',
          r.array,
          r.named,
        )
        refl

-- Nothing for each of `n` frames, and then the event.
unfoldable pub announced : {Value : Type 0} → ℕ → Text → List Text → List (FeedResult Value)
announced zero name all = success (some (binary_event name all)) ∷ []
announced (suc n) name all = success none ∷ announced n name all

module _ {Value : Type 0} (json : Json Value) where
  next_all-collecting :
      (name : Text) (n : ℕ) (got : List Text) (payload : Text) (payloads : List Text)
      → n ≡ length got + suc (length payloads)
      → next_all json (collecting name n got) (map binary (payload ∷ payloads))
        ≡ announced (length payloads) name (got ++ (payload ∷ payloads))
  unfolding next_all next announced
  next_all-collecting name n got payload [] h =
      let full : (length (got ++ (payload ∷ [])) == n) ≡ true =
        ground (arith, h, length-append got (payload ∷ [])) in
      rw (full) refl
  next_all-collecting name n got payload (another ∷ payloads) h =
      let size = length-append got (payload ∷ []) in
      let more : (length (got ++ (payload ∷ [])) == n) ≡ false = ground (arith, h, size) in
      rw (more) (
        ap (◌∷◌ (success none)) (
          next_all-collecting name n (got ++ (payload ∷ [])) another payloads
            (omega (arith, h, size))
          ∙ ap (announced (length payloads) name)
              (append_assoc got (payload ∷ []) (another ∷ payloads))))

  next_all-opened :
      (name : Text) (payloads : List Text) (s : Text) (id : Option ℕ) (nums : List ℕ)
      → parse_text json s ≡ success (binary_event_header (length payloads) id name nums)
      → next_all json idle (text s ∷ map binary payloads)
        ≡ announced (length payloads) name payloads
  unfolding next_all next opened announced
  next_all-opened name [] s id nums e = rw (e) refl
  next_all-opened name (payload ∷ payloads) s id nums e =
      let announces : (suc (length payloads) == 0) ≡ false = ground arith in
      rw (e, announces)
        (ap (◌∷◌ (success none))
          (next_all-collecting name (suc (length payloads)) [] payload payloads (omega arith)))

  -- The text that `encode_binary_event` writes for a number of payloads below 2^32, with or without
  -- an id of 64 bits, and then the payloads make a correlator that starts give nothing until the last
  -- frame, and with that one the event with its name and all its payloads in order. serde_json reads
  -- back the array of this event.
  pub feed_all-encode_binary_event :
      (name : Text) (payloads : List Text) (id : Option ℕ)
      → length payloads < 2 ^ 32
      → IsWithin (2 ^ 64 - 1) id
      → IsReadBack json name (length payloads)
      → feed_all json new
          (text (encode_binary_event json name (length payloads) id) ∷ map binary payloads)
        ≡ announced (length payloads) name payloads
  feed_all-encode_binary_event name payloads id h h' r =
      feed_all-new json _
      ∙ next_all-opened name payloads _ id _
          (parse_text-encode_binary_event json name (length payloads) id h h' r)
