-- ===== src/Prusa/Commands/Quality.antt =====
-- src/prusa/commands.rs: the fields of the payload that sets the quality.
use mathlib.Core.Option as Option
use buddy3d_proxy.Prelude.{
  ℕ, ◌<◌, ◌^◌, ◌≡◌, refl, sym, ap, ◌∙◌, some, [], ◌∷◌, ◌++◌, length, arith, append_assoc,
  append-nil, length-append,
}
use buddy3d_proxy.Prelude.Text.{Text}
use buddy3d_proxy.Prusa.Commands.{encode_varint, encode_set_quality}
use buddy3d_proxy.Prusa.Commands.RoundTrip.{length-encode_varint}
use buddy3d_proxy.Prusa.Commands.Fields.{
  varint_field, bytes_field, read_field, read_fields, wire_varint, wire_bytes,
  read_field-wire_varint, read_field-wire_bytes, read_fields-cons, encode_varint-append,
}

encode_set_quality-wire :
    (quality : ℕ) (token : Text)
    → encode_set_quality quality token
      ≡ wire_bytes 4 [] ++ (wire_bytes 6 token ++ wire_bytes 8 (wire_varint 1 quality))
unfolding encode_set_quality
encode_set_quality-wire quality token =
    let sub = wire_varint 1 quality in
    let a = encode_varint [] 34 in
    let b = a ++ encode_varint [] 0 in
    let n = length token in
    let t = wire_bytes 6 token in
    rw
      (
        encode_varint-append (encode_varint [] 8) quality,
        encode_varint-append a 0,
        encode_varint-append b 50,
        encode_varint-append (b ++ encode_varint [] 50) n,
        append_assoc (b ++ encode_varint [] 50) (encode_varint [] n) token,
        append_assoc b (encode_varint [] 50) (encode_varint [] n ++ token),
        encode_varint-append (b ++ t) 66,
        encode_varint-append ((b ++ t) ++ encode_varint [] 66) (length sub),
        append_assoc ((b ++ t) ++ encode_varint [] 66) (encode_varint [] (length sub)) sub,
        append_assoc (b ++ t) (encode_varint [] 66) (encode_varint [] (length sub) ++ sub),
        append_assoc b t (wire_bytes 8 sub),
        append-nil (encode_varint [] 0),
      )
      refl

-- A reader finds in the payload that sets the quality an empty field 4, the token in field 6 and a
-- message in field 8, in which field 1 is the quality, and nothing else.
pub read_fields-encode_set_quality :
    (quality : ℕ) (token : Text)
    → quality < 2 ^ 32
    → length token < 2 ^ 64
    → (read_fields 3 (encode_set_quality quality token)
        ≡ some
            (bytes_field 4 [] ∷ bytes_field 6 token ∷ bytes_field 8 (wire_varint 1 quality) ∷ []))
      × (read_fields 1 (wire_varint 1 quality) ≡ some (varint_field 1 quality ∷ []))
unfolding read_fields
read_fields-encode_set_quality quality token h h' =
    let sub = wire_varint 1 quality in
    let t = wire_bytes 6 token in
    let q = wire_bytes 8 sub in
    let short : length sub < 2 ^ 64 = omega (
      arith,
      length-append (encode_varint [] 8) (encode_varint [] quality),
      length-encode_varint 8,
      length-encode_varint quality,
    ) in
    (
      ap (read_fields 3) (encode_set_quality-wire quality token)
          ∙ (read_fields-cons 2 (wire_bytes 4 [] ++ (t ++ q)) (t ++ q) (bytes_field 4 [])
                (read_field-wire_bytes 4 [] (t ++ q) (omega arith) (omega arith))
              ∙ ap (Option.map (◌∷◌ (bytes_field 4 []))) (
                  read_fields-cons 1 (t ++ q) q (bytes_field 6 token)
                    (read_field-wire_bytes 6 token q (omega arith) h')
                  ∙ ap (Option.map (◌∷◌ (bytes_field 6 token))) (
                      read_fields-cons 0 q [] (bytes_field 8 sub) (
                        ap read_field (sym (append-nil q))
                        ∙ read_field-wire_bytes 8 sub [] (omega arith) short)))),
      read_fields-cons 0 sub [] (varint_field 1 quality) (
          ap read_field (sym (append-nil sub))
          ∙ read_field-wire_varint 1 quality [] (omega arith) (omega (arith, h))),
    )
