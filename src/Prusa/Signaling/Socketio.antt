-- ===== src/Prusa/Signaling/Socketio.antt =====
-- src/prusa/signaling/socketio.rs: the packets of Socket.IO and the correlator, which puts a binary
-- event together from its header and the frames behind it. A hash map is a list of pairs with
-- different keys.
use mathlib.Core.Option as Option
use buddy3d_proxy.Prelude.{
  ℕ, zero, suc, ◌+◌, ◌-◌, ◌%◌, ◌^◌, leb, if◌then◌else◌, ◌==◌, Bool, true, ◌&&◌, Option, none, some,
  List, [], ◌∷◌, ◌++◌, take,
}
use buddy3d_proxy.Prelude.Text.{Text, codes, split_once, is_empty}
use buddy3d_proxy.Prelude.Decimal.{parse_unsigned, to_text}
use buddy3d_proxy.Prelude.Utf8.{char_width}
use buddy3d_proxy.Prelude.Results.{Result, success, failure, ok_or, map_err, ◌>>=◌}
use buddy3d_proxy.Prusa.Signaling.Json.{Json}

abbrev pub filter_map {ℓ κ} : {A : Type ℓ} {B : Type κ} → (A → Option B) → List A → List B
filter_map f [] = []
filter_map f (x ∷ xs) = elim (f x) [ none ↦ filter_map f xs | some y ↦ y ∷ filter_map f xs ]

-- `filter`, on a Boolean
abbrev only_true : Option Bool → Option Bool
only_true (some true) = some true
only_true _ = none

abbrev pub and_then {ℓ κ} : {A : Type ℓ} {B : Type κ} → Option A → (A → Option B) → Option B
and_then none f = none
and_then (some a) f = f a

pub data ParseError : Type 0 where
  empty_packet : ParseError
  unknown_type : Text → ParseError
  bad_json : Text → ParseError
  bad_binary_header : Text → ParseError
  missing_event_name : ParseError

abbrev is_digit : ℕ → Bool
is_digit b = leb b'0' b && leb b b'9'

unfoldable pub leading_digits : Text → Text × Text
leading_digits [] = ([], [])
leading_digits (b ∷ bs) =
    let (head, tail) = leading_digits bs in if is_digit b then (b ∷ head, tail) else ([], b ∷ bs)

-- The id, unless it has no digit or passes 64 bits, and what stands behind its digits.
unfoldable pub split_optional_id : Text → Option ℕ × Text
unfolding leading_digits parse_unsigned
split_optional_id s =
    let (head, tail) = leading_digits s in
    if is_empty head then (none, s) else (parse_unsigned (2 ^ 64 - 1) head, tail)

module _ {Value : Type 0} (json : Json Value) where
  -- The first argument of an event is its name.
  unfoldable pub event_name : List Value → Result ParseError (Text × List Value)
  event_name [] = failure missing_event_name
  event_name (v ∷ args) = do name ← ok_or (json.as_str v) missing_event_name; success (name, args)

  unfoldable pub placeholder_num : Value → Option ℕ
  placeholder_num v =
      and_then (only_true (and_then (json.get v (codes "_placeholder")) json.as_bool)) (λ _.
        and_then (json.get v (codes "num")) (λ n. Option.map (λ x. x % 2 ^ 32) (json.as_u64 n)))

  unfoldable pub encode_connect : Value → Text
  encode_connect auth = b'0' ∷ json.to_string auth

  unfoldable pub placeholder : ℕ → Value
  placeholder i =
      json.object ((codes "_placeholder", json.bool true) ∷ (codes "num", json.number i) ∷ [])

  -- The placeholders from number `i` on.
  unfoldable pub placeholders_from : ℕ → ℕ → List Value
  unfolding placeholder
  placeholders_from i zero = []
  placeholders_from i (suc n) = placeholder i ∷ placeholders_from (i + 1) n

  unfoldable pub event_args : Text → ℕ → List Value
  unfolding placeholders_from
  event_args name attachment_count = json.string name ∷ placeholders_from 0 attachment_count

  abbrev pub id_text : Option ℕ → Text
  id_text none = []
  id_text (some id) = to_text id

  unfoldable pub encode_binary_event : Text → ℕ → Option ℕ → Text
  unfolding event_args to_text
  encode_binary_event name attachment_count ack_id =
      let body = json.array_to_string (event_args name attachment_count) in
      b'5' ∷ (to_text attachment_count ++ (b'-' ∷ (id_text ack_id ++ body)))

module _ (Value : Type 0) where
  pub data TextPacket : Type 0 where
    connect : Option Value → TextPacket
    disconnect : TextPacket
    event : Option ℕ → Text → List Value → TextPacket
    ack : ℕ → List Value → TextPacket
    binary_event_header : ℕ → Option ℕ → Text → List ℕ → TextPacket

  pub data Event : Type 0 where
    text_event : Text → List Value → Event
    binary_event : Text → List Text → Event
    connected_event : Option Value → Event
    disconnected_event : Event
    ack_event : ℕ → List Value → Event

abbrev pub event_header :
    {Value : Type 0} → ℕ → Option ℕ → Text × List Value → (Value → Option ℕ) → TextPacket Value
event_header n id (name, args) num = binary_event_header n id name (filter_map num args)

abbrev pub event_packet : {Value : Type 0} → Option ℕ → Text × List Value → TextPacket Value
event_packet id (name, args) = event id name args

module _ {Value : Type 0} (json : Json Value) where
  unfoldable pub parse_connect : Text → Result ParseError (TextPacket Value)
  parse_connect [] = success (connect none)
  parse_connect (b ∷ rest) = do
    auth ← map_err (json.from_str (b ∷ rest)) bad_json
    success (connect (some auth))

  unfoldable pub parse_event : Text → Result ParseError (TextPacket Value)
  unfolding split_optional_id event_name
  parse_event rest = do
    let (id, body) = split_optional_id rest
    args ← map_err (json.array_from_str body) bad_json
    named ← event_name json args
    success (event_packet id named)

  unfoldable pub parse_ack : Text → Result ParseError (TextPacket Value)
  unfolding split_optional_id
  parse_ack rest = do
    let (id_opt, body) = split_optional_id rest
    id ← ok_or id_opt (bad_binary_header (codes "ack without id"))
    args ← map_err (json.array_from_str body) bad_json
    success (ack id args)

  unfoldable pub parse_binary_header : Text → Result ParseError (TextPacket Value)
  unfolding split_optional_id event_name placeholder_num split_once parse_unsigned
  parse_binary_header rest = do
    (count, after_dash) ←
        ok_or (split_once b'-' rest) (bad_binary_header (codes "missing dash in: " ++ rest))
    n ←
        ok_or (parse_unsigned (2 ^ 32 - 1) count)
          (bad_binary_header (codes "non-numeric attachment count: " ++ count))
    let (id, body) = split_optional_id after_dash
    args ← map_err (json.array_from_str body) bad_json
    named ← event_name json args
    success (event_header n id named (placeholder_num json))

  unfoldable pub parse_text : Text → Result ParseError (TextPacket Value)
  unfolding parse_connect parse_event parse_ack parse_binary_header
  parse_text [] = failure empty_packet
  parse_text (kind ∷ rest) =
      if kind == b'0'
      then parse_connect rest
      else if kind == b'1'
      then success disconnect
      else if kind == b'2'
      then parse_event rest
      else if kind == b'3'
      then parse_ack rest
      else if kind == b'5'
      then parse_binary_header rest
      else failure (unknown_type (take (char_width kind) (kind ∷ rest)))
