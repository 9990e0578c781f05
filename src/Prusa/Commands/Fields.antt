-- ===== src/Prusa/Commands/Fields.antt =====
-- src/prusa/commands.rs: the fields that the payloads hold.
use mathlib.Core.Option as Option
use buddy3d_proxy.Prelude.{
  ℕ, zero, suc, ◌+◌, ◌*◌, ◌/◌, ◌%◌, ◌^◌, ◌<◌, ◌≡◌, refl, sym, ap, ◌∙◌, leb, ◌==◌, if◌then◌else◌,
  true, Option, none, some, List, [], ◌∷◌, ◌++◌, length, take, drop, arith, append_assoc,
  append-nil, take-length, drop-length, length-append,
}
use buddy3d_proxy.Prelude.Text.{Text, is_empty}
use buddy3d_proxy.Prusa.Commands.{encode_varint, encode_camera_trigger, encode_set_mode}
use buddy3d_proxy.Prusa.Commands.RoundTrip.{
  read_varint, push_varint-append, read_varint-encode_varint, length-encode_varint,
}

pub data Field : Type 0 where
  varint_field : ℕ → ℕ → Field
  bytes_field : ℕ → Text → Field

abbrev as_varint : ℕ → Option (ℕ × Text) → Option (Field × Text)
as_varint num none = none
as_varint num (some (value, rest)) = some (varint_field num value, rest)

abbrev as_bytes : ℕ → Option (ℕ × Text) → Option (Field × Text)
as_bytes num none = none
as_bytes num (some (n, rest)) =
    if leb n (length rest) then some (bytes_field num (take n rest), drop n rest) else none

-- A field by its tag: the number above, the wire type in the last three bits.
abbrev by_tag : Option (ℕ × Text) → Option (Field × Text)
by_tag none = none
by_tag (some (tag, rest)) =
    if tag % 8 == 0
    then as_varint (tag / 8) (read_varint rest)
    else if tag % 8 == 2
    then as_bytes (tag / 8) (read_varint rest)
    else none

unfoldable pub read_field : Text → Option (Field × Text)
unfolding read_varint
read_field s = by_tag (read_varint s)

abbrev behind : Option (Field × Text) → (Text → Option (List Field)) → Option (List Field)
behind none further = none
behind (some (f, rest)) further = Option.map (◌∷◌ f) (further rest)

-- All the fields of a message, on fuel.
unfoldable pub read_fields : ℕ → Text → Option (List Field)
unfolding read_field
read_fields zero s = if is_empty s then some [] else none
read_fields (suc fuel) s = if is_empty s then some [] else behind (read_field s) (read_fields fuel)

abbrev pub wire_varint : ℕ → ℕ → Text
wire_varint num value = encode_varint [] (num * 8) ++ encode_varint [] value

abbrev pub wire_bytes : ℕ → Text → Text
wire_bytes num t = encode_varint [] (num * 8 + 2) ++ (encode_varint [] (length t) ++ t)

pub read_field-wire_varint :
    (num value : ℕ) (rest : Text)
    → num < 2 ^ 61
    → value < 2 ^ 64
    → read_field (wire_varint num value ++ rest) ≡ some (varint_field num value, rest)
unfolding read_field
read_field-wire_varint num value rest h h' =
    let kind : num * 8 % 8 ≡ 0 = omega arith in
    let number : num * 8 / 8 ≡ num = omega arith in
    rw
      (
        append_assoc (encode_varint [] (num * 8)) (encode_varint [] value) rest,
        read_varint-encode_varint (num * 8) (encode_varint [] value ++ rest) (omega (arith, h)),
        kind,
        number,
        read_varint-encode_varint value rest h',
      )
      refl

pub read_field-wire_bytes :
    (num : ℕ) (t rest : Text)
    → num < 2 ^ 60
    → length t < 2 ^ 64
    → read_field (wire_bytes num t ++ rest) ≡ some (bytes_field num t, rest)
unfolding read_field
read_field-wire_bytes num t rest h h' =
    let kind : (num * 8 + 2) % 8 ≡ 2 = omega arith in
    let number : (num * 8 + 2) / 8 ≡ num = omega arith in
    let fits : leb (length t) (length (t ++ rest)) ≡ true = ground (arith, length-append t rest) in
    rw
      (
        append_assoc (encode_varint [] (num * 8 + 2)) (encode_varint [] (length t) ++ t) rest,
        append_assoc (encode_varint [] (length t)) t rest,
        read_varint-encode_varint (num * 8 + 2) (encode_varint [] (length t) ++ (t ++ rest))
            (omega (arith, h)),
        kind,
        number,
        read_varint-encode_varint (length t) (t ++ rest) h',
        fits,
        take-length t rest,
        drop-length t rest,
      )
      refl

pub read_fields-cons :
    (fuel : ℕ) (s rest : Text) (f : Field)
    → read_field s ≡ some (f, rest)
    → read_fields (suc fuel) s ≡ Option.map (◌∷◌ f) (read_fields fuel rest)
unfolding read_fields read_field
read_fields-cons fuel [] rest f e = ground (arith, e)
read_fields-cons fuel (b ∷ s) rest f e = rw (e) refl

pub encode_varint-append :
    (buf : List ℕ) (value : ℕ) → encode_varint buf value ≡ buf ++ encode_varint [] value
unfolding encode_varint
encode_varint-append buf value = push_varint-append 9 buf value

encode_camera_trigger-wire :
    (num : ℕ) (token : Text)
    → num < 2 ^ 29
    → encode_camera_trigger num token ≡ wire_varint num 1 ++ wire_bytes 11 token
unfolding encode_camera_trigger
encode_camera_trigger-wire num token h =
    let tag : num * 2 ^ 3 % 2 ^ 32 ≡ num * 8 = omega (arith, h) in
    let a = encode_varint [] (num * 8) in
    let b = a ++ encode_varint [] 1 in
    let n = length token in
    rw
      (
        tag,
        encode_varint-append a 1,
        encode_varint-append b 90,
        encode_varint-append (b ++ encode_varint [] 90) n,
        append_assoc (b ++ encode_varint [] 90) (encode_varint [] n) token,
        append_assoc b (encode_varint [] 90) (encode_varint [] n ++ token),
      )
      refl

-- The two fields of a message.
read_two :
    (f g : Field) (x y : Text)
    → ((rest : Text) → read_field (x ++ rest) ≡ some (f, rest))
    → ((rest : Text) → read_field (y ++ rest) ≡ some (g, rest))
    → read_fields 2 (x ++ y) ≡ some (f ∷ g ∷ [])
unfolding read_fields
read_two f g x y h h' =
    let last : read_field y ≡ some (g, []) = ap read_field (sym (append-nil y)) ∙ h' [] in
    read_fields-cons 1 (x ++ y) y f (h y) ∙ ap (Option.map (◌∷◌ f)) (read_fields-cons 0 y [] g last)

-- A reader of protocol buffers finds in a trigger's payload the field with value 1 and the token in
-- field 11, and nothing else. The number is one of the 29 bits that a field number has.
read_fields-encode_camera_trigger :
    (num : ℕ) (token : Text)
    → num < 2 ^ 29
    → length token < 2 ^ 64
    → read_fields 2 (encode_camera_trigger num token)
      ≡ some (varint_field num 1 ∷ bytes_field 11 token ∷ [])
read_fields-encode_camera_trigger num token h h' =
    ap (read_fields 2) (encode_camera_trigger-wire num token h)
    ∙ read_two (varint_field num 1) (bytes_field 11 token) (wire_varint num 1) (wire_bytes 11 token)
        (λ rest. read_field-wire_varint num 1 rest (omega (arith, h)) (omega arith))
        (λ rest. read_field-wire_bytes 11 token rest (omega arith) h')

encode_set_mode-wire :
    (mode : ℕ) (token : Text)
    → encode_set_mode mode token ≡ wire_bytes 3 (wire_varint 4 mode) ++ wire_bytes 6 token
unfolding encode_set_mode
encode_set_mode-wire mode token =
    let sub = wire_varint 4 mode in
    let a = encode_varint [] 26 in
    let b = a ++ (encode_varint [] (length sub) ++ sub) in
    let n = length token in
    rw
      (
        encode_varint-append (encode_varint [] 32) mode,
        encode_varint-append a (length sub),
        append_assoc a (encode_varint [] (length sub)) sub,
        encode_varint-append b 50,
        encode_varint-append (b ++ encode_varint [] 50) n,
        append_assoc (b ++ encode_varint [] 50) (encode_varint [] n) token,
        append_assoc b (encode_varint [] 50) (encode_varint [] n ++ token),
      )
      refl

-- A reader finds in the payload that sets the mode a message in field 3, in which field 4 is the mode,
-- and the token in field 6, and nothing else.
read_fields-encode_set_mode :
    (mode : ℕ) (token : Text)
    → mode < 2 ^ 32
    → length token < 2 ^ 64
    → (read_fields 2 (encode_set_mode mode token)
        ≡ some (bytes_field 3 (wire_varint 4 mode) ∷ bytes_field 6 token ∷ []))
      × (read_fields 1 (wire_varint 4 mode) ≡ some (varint_field 4 mode ∷ []))
unfolding read_fields
read_fields-encode_set_mode mode token h h' =
    let sub = wire_varint 4 mode in
    let short : length sub < 2 ^ 64 = omega (
      arith,
      length-append (encode_varint [] 32) (encode_varint [] mode),
      length-encode_varint 32,
      length-encode_varint mode,
    ) in
    (
      ap (read_fields 2) (encode_set_mode-wire mode token)
          ∙ read_two (bytes_field 3 sub) (bytes_field 6 token) (wire_bytes 3 sub)
              (wire_bytes 6 token) (λ rest. read_field-wire_bytes 3 sub rest (omega arith) short)
              (λ rest. read_field-wire_bytes 6 token rest (omega arith) h'),
      read_fields-cons 0 sub [] (varint_field 4 mode) (
          ap read_field (sym (append-nil sub))
          ∙ read_field-wire_varint 4 mode [] (omega arith) (omega (arith, h))),
    )
