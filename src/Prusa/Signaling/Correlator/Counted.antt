-- ===== src/Prusa/Signaling/Correlator/Counted.antt =====
-- src/prusa/signaling/socketio.rs: the number of attachments that a header announces has 32 bits.
use buddy3d_proxy.Prelude.{
  ℕ, ◌-◌, ◌≤◌, ◌^◌, ◌<◌, Bool, true, false, if◌then◌else◌, ◌==◌, Option, none, some, List, [], ◌∷◌,
  arith, ◌++◌, Option-cases, inl, inr,
}
use buddy3d_proxy.Prelude.Text.{Text, split_once, codes}
use buddy3d_proxy.Prelude.Decimal.{parse_unsigned}
use buddy3d_proxy.Prelude.Decimal.RoundTrip.{IsWithin, parse_unsigned-IsWithin}
use buddy3d_proxy.Prelude.Results.{Result, success, failure, ok_or, map_err, ◌>>=◌}
use buddy3d_proxy.Prusa.Signaling.Json.{Json}
use buddy3d_proxy.Prusa.Signaling.Socketio.{
  ParseError, bad_json, bad_binary_header, TextPacket, connect, ack, binary_event_header,
  split_optional_id, event_name, placeholder_num, parse_connect, parse_event, parse_ack,
  parse_binary_header, parse_text, event_packet, event_header,
}

module _ {Value : Type 0} where
  -- An announced number of attachments has 32 bits.
  abbrev pub IsCounted : Result ParseError (TextPacket Value) → Type 0
  IsCounted (success (binary_event_header n id name placeholders)) = n < 2 ^ 32
  IsCounted _ = Unit {0}

  if-IsCounted :
      (t : Bool) (x y : Result ParseError (TextPacket Value))
      → IsCounted x
      → IsCounted y
      → IsCounted (if t then x else y)
  if-IsCounted true x y h h' = h
  if-IsCounted false x y h h' = h'

  connect-IsCounted :
      (auth : Result ParseError Value) → IsCounted (auth >>= λ v. success (connect (some v)))
  connect-IsCounted (success v) = tt
  connect-IsCounted (failure e) = tt

  event-IsCounted :
      (id : Option ℕ) (named : Result ParseError (Text × List Value))
      → IsCounted (named >>= λ x. success (event_packet id x))
  event-IsCounted id (success (name, args)) = tt
  event-IsCounted id (failure e) = tt

  ack-IsCounted :
      (id : ℕ) (args : Result ParseError (List Value))
      → IsCounted (args >>= λ x. success (ack id x))
  ack-IsCounted id (success args) = tt
  ack-IsCounted id (failure e) = tt

  header-IsCounted :
      (n : ℕ) (id : Option ℕ) (num : Value → Option ℕ)
      (named : Result ParseError (Text × List Value))
      → n ≤ 2 ^ 32 - 1
      → IsCounted (named >>= λ x. success (event_header n id x num))
  header-IsCounted n id num (success (name, args)) h = omega (arith, h)
  header-IsCounted n id num (failure e) h = tt

module _ {Value : Type 0} (json : Json Value) where
  event_args-IsCounted :
      (id : Option ℕ) (args : Result ParseError (List Value))
      → IsCounted (args >>= λ x. event_name json x >>= λ y. success (event_packet id y))
  event_args-IsCounted id (success args) = event-IsCounted id (event_name json args)
  event_args-IsCounted id (failure e) = tt

  ack_id-IsCounted :
      (id : Option ℕ) (e : ParseError) (args : Result ParseError (List Value))
      → IsCounted (ok_or id e >>= λ i. args >>= λ x. success (ack i x))
  ack_id-IsCounted (some id) e args = ack-IsCounted id args
  ack_id-IsCounted none e args = tt

  header_args-IsCounted :
      (n : ℕ) (id : Option ℕ) (args : Result ParseError (List Value))
      → n ≤ 2 ^ 32 - 1
      → IsCounted (
          args >>= λ x.
          event_name json x >>= λ y. success (event_header n id y (placeholder_num json)))
  header_args-IsCounted n id (success args) h =
      header-IsCounted n id (placeholder_num json) (event_name json args) h
  header_args-IsCounted n id (failure e) h = tt

  header_count-IsCounted :
      (n : Option ℕ) (e : ParseError) (id : Option ℕ) (args : Result ParseError (List Value))
      → IsWithin (2 ^ 32 - 1) n
      → IsCounted (
          ok_or n e >>= λ i. args >>= λ x.
          event_name json x >>= λ y. success (event_header i id y (placeholder_num json)))
  header_count-IsCounted (some n) e id args h = header_args-IsCounted n id args h
  header_count-IsCounted none e id args h = tt

  parse_connect-IsCounted : (rest : Text) → IsCounted (parse_connect json rest)
  unfolding parse_connect
  parse_connect-IsCounted [] = tt
  parse_connect-IsCounted (b ∷ rest) =
      connect-IsCounted (map_err (json.from_str (b ∷ rest)) bad_json)

  parse_event-IsCounted : (rest : Text) → IsCounted (parse_event json rest)
  unfolding parse_event
  parse_event-IsCounted rest =
      let (id, body) = split_optional_id rest in
      event_args-IsCounted id (map_err (json.array_from_str body) bad_json)

  parse_ack-IsCounted : (rest : Text) → IsCounted (parse_ack json rest)
  unfolding parse_ack
  parse_ack-IsCounted rest =
      let (id, body) = split_optional_id rest in
      ack_id-IsCounted id (bad_binary_header (codes "ack without id"))
        (map_err (json.array_from_str body) bad_json)

  parse_binary_header-IsCounted : (rest : Text) → IsCounted (parse_binary_header json rest)
  unfolding parse_binary_header
  parse_binary_header-IsCounted rest = elim (Option-cases (split_once b'-' rest)) [
    | inl e ↦ rw (e) tt
    | inr ((head, after_dash), e) ↦
        let (id, body) = split_optional_id after_dash in
        rw (e) (
          header_count-IsCounted (parse_unsigned (2 ^ 32 - 1) head)
            (bad_binary_header (codes "non-numeric attachment count: " ++ head)) id
            (map_err (json.array_from_str body) bad_json)
            (parse_unsigned-IsWithin (2 ^ 32 - 1) head))
  ]

  pub parse_text-IsCounted : (s : Text) → IsCounted (parse_text json s)
  unfolding parse_text
  parse_text-IsCounted [] = tt
  parse_text-IsCounted (kind ∷ rest) =
      if-IsCounted (kind == b'0') _ _ (parse_connect-IsCounted rest) (
        if-IsCounted (kind == b'1') _ _ tt (
          if-IsCounted (kind == b'2') _ _ (parse_event-IsCounted rest) (
            if-IsCounted (kind == b'3') _ _ (parse_ack-IsCounted rest)
              (if-IsCounted (kind == b'5') _ _ (parse_binary_header-IsCounted rest) tt))))
